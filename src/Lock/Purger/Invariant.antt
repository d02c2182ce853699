-- ===== src/Lock/Purger/Invariant.antt =====
-- What holds whenever the purger and the callers of `Close` are running.
use dp_mongodb.Base.{ℕ, ◌∙◌, ◌≡◌, ◌⊎◌, inl, inr, refl, Bool, true, false, arith}
use dp_mongodb.Lock.Purger.{
  Loop, stopping, draining, finished, Closer, waiting, closed, State, init, Step, pass, purge, fire,
  fire_late, tick, see_closed, stop, too_late, drain, close, close_again, wait_over, Reach, here,
  next,
}

abbrev running : Loop → ℕ
running finished = 0
running _ = 1

-- The caller has closed the channel.
abbrev pub has_closed : Closer → Bool
has_closed waiting = true
has_closed closed = true
has_closed _ = false

abbrev pub is_closed : Closer → Bool
is_closed closed = true
is_closed _ = false

pub record Inv (s : State) : Type 0 where
  pub counted : s.wait_group ≡ running s.loop
  pub stopped :
      (s.loop ≡ stopping) ⊎ ((s.loop ≡ draining) ⊎ (s.loop ≡ finished)) → s.channel_closed ≡ true
  pub full : s.loop ≡ draining → s.fired ≡ true
  pub shut : (i : ℕ) → has_closed (s.callers i) ≡ true → s.channel_closed ≡ true
  pub once : (i j : ℕ) → has_closed (s.callers i) ≡ true → has_closed (s.callers j) ≡ true → i ≡ j
  pub over : (i : ℕ) → is_closed (s.callers i) ≡ true → s.loop ≡ finished

pub init-Inv : (now : ℕ) → Inv (init now)
init-Inv now = record {
  counted = refl;
  stopped = ground arith;
  full = ground arith;
  shut = λ i h. cc;
  once = λ i j h k. cc;
  over = λ i h. cc;
}

-- A step that leaves the callers and the channel as they are.
moved-Inv :
    {s t : State}
    → t.callers ≡ s.callers
    → t.channel_closed ≡ s.channel_closed
    → (s.loop ≡ finished → t.loop ≡ finished)
    → t.wait_group ≡ running t.loop
    → ((t.loop ≡ stopping) ⊎ ((t.loop ≡ draining) ⊎ (t.loop ≡ finished)) → t.channel_closed ≡ true)
    → (t.loop ≡ draining → t.fired ≡ true)
    → Inv s
    → Inv t
moved-Inv c d e f g h v = record {
  counted = f;
  stopped = g;
  full = h;
  shut = λ i k. d ∙ v.shut i (rw c at k);
  once = λ i j k l. v.once i j (rw c at k) (rw c at l);
  over = λ i k. e (v.over i (rw c at k));
}

pub Step-Inv : {o : Bool} {s t : State} → Step o s t → Inv s → Inv t
Step-Inv pass v = moved-Inv refl refl (λ e. e) v.counted v.stopped v.full v
Step-Inv (purge a) v =
    moved-Inv refl refl (λ e. cc) (ground (arith, v.counted)) (ground arith) (ground arith) v
Step-Inv (fire a b) v = moved-Inv refl refl (λ e. e) v.counted v.stopped (λ e. refl) v
Step-Inv (fire_late a b) v = moved-Inv refl refl (λ e. e) v.counted v.stopped (λ e. refl) v
Step-Inv (tick a b) v =
    moved-Inv refl refl (λ e. cc) (ground (arith, v.counted)) (ground arith) (ground arith) v
Step-Inv (see_closed a b) v =
    moved-Inv refl refl (λ e. cc) (ground (arith, v.counted)) (λ e. b) (ground arith) v
Step-Inv (stop a b) v =
    moved-Inv refl refl (λ e. refl) (ground (arith, v.counted)) (λ e. v.stopped (inl a))
      (ground arith) v
Step-Inv (too_late a b) v =
    moved-Inv refl refl (λ e. cc) (ground (arith, v.counted)) (λ e. v.stopped (inl a))
      (λ e. ground arith) v
Step-Inv (drain a b) v =
    moved-Inv refl refl (λ e. refl) (ground (arith, v.counted)) (λ e. v.stopped (inr (inl a)))
      (ground arith) v
Step-Inv (close i a b) v = record {
  counted = v.counted;
  stopped = λ e. refl;
  full = v.full;
  shut = λ j h. refl;
  once = λ j k h l. ground (arith, v.shut j, v.shut k);
  over = λ j h. ground (arith, v.over j);
}
Step-Inv (close_again i a b) v = record {
  counted = v.counted;
  stopped = v.stopped;
  full = v.full;
  shut = λ j h. b;
  once = λ j k h l. ground (arith, v.once j k);
  over = λ j h. ground (arith, v.over j);
}
Step-Inv (wait_over i a b) v = record {
  counted = v.counted;
  stopped = v.stopped;
  full = v.full;
  shut = λ j h. v.shut i (ground (arith, a));
  once = λ j k h l. ground (arith, a, v.once j k, v.once i k, v.once j i);
  over = λ j h. ground (arith, v.counted);
}

pub Reach-Inv : {o : Bool} {s t : State} → Inv s → Reach o s t → Inv t
Reach-Inv v here = v
Reach-Inv v (next r st) = Step-Inv st (Reach-Inv v r)
