-- ===== src/Lock/Purger/Laws.antt =====
-- `Close` waits for the purger, the purger ends only for `Close`, and neither gets stuck.
use dp_mongodb.Base.{
  ℕ, ◌+◌, ◌≤◌, ◌≡◌, ◌⊎◌, inl, inr, refl, ap, Bool, Bool-cases, true, false, arith, ◌&&◌,
}
use dp_mongodb.Lock.Purger.{
  Loop, purging, selecting, stopping, draining, finished, Closer, open_, waiting, closed, panicked,
  State, init, Step, pass, purge, fire, fire_late, tick, see_closed, stop, too_late, drain, close,
  close_again, wait_over, Reach, here, next,
}
use dp_mongodb.Lock.Purger.Invariant.{has_closed, is_closed, Inv, init-Inv, Step-Inv, Reach-Inv}

-- Until a call of `Close` has closed the channel, the purger goes on.
open_runs :
    (o : Bool) (now : ℕ) {s : State}
    → Reach o (init now) s
    → s.channel_closed ≡ false
    → (s.loop ≡ purging) ⊎ (s.loop ≡ selecting)
open_runs o now r c = ground (arith, Reach-Inv (init-Inv now) r)

-- Where the purger waits for the value of a timer that it could not stop, that value is there, so it
-- does not block.
drain_ready :
    (o : Bool) (now : ℕ) {s : State} → Reach o (init now) s → s.loop ≡ draining → s.fired ≡ true
drain_ready o now r l = (Reach-Inv (init-Inv now) r).full l

finished_quiet :
    {o : Bool} {s t : State}
    → s.loop ≡ finished
    → Reach o s t
    → (t.loop ≡ finished) × (t.purges ≡ s.purges)
finished_quiet l here = (l, refl)
finished_quiet l (next r st) = let (k, e) = finished_quiet l r in still st k e
  where
    still :
        {n : ℕ} {o : Bool} {t u : State}
        → Step o t u
        → t.loop ≡ finished
        → t.purges ≡ n
        → (u.loop ≡ finished) × (u.purges ≡ n)
    still pass k e = (k, e)
    still (purge a) k e = cc
    still (fire a b) k e = (k, e)
    still (fire_late a b) k e = (k, e)
    still (tick a b) k e = cc
    still (see_closed a b) k e = cc
    still (stop a b) k e = (refl, e)
    still (too_late a b) k e = cc
    still (drain a b) k e = (refl, e)
    still (close i a b) k e = (k, e)
    still (close_again i a b) k e = (k, e)
    still (wait_over i a b) k e = (k, e)

stays_closed :
    {o : Bool} {s t : State} (i : ℕ) → s.callers i ≡ closed → Reach o s t → t.callers i ≡ closed
stays_closed i c here = c
stays_closed i c (next r st) = still st (stays_closed i c r)
  where
    still : {o : Bool} {t u : State} → Step o t u → t.callers i ≡ closed → u.callers i ≡ closed
    still pass c = c
    still (purge a) c = c
    still (fire a b) c = c
    still (fire_late a b) c = c
    still (tick a b) c = c
    still (see_closed a b) c = c
    still (stop a b) c = c
    still (too_late a b) c = c
    still (drain a b) c = c
    still (close k a b) c = ground arith
    still (close_again k a b) c = ground arith
    still (wait_over k a b) c = ground arith

-- Once a call of `Close` has returned, the purger has finished and never purges again, and any other
-- call has not begun or has panicked.
pub closed_quiet :
    (o : Bool) (now i j : ℕ) {s t : State}
    → Reach o (init now) s
    → s.callers i ≡ closed
    → Reach o s t
    → (t.loop ≡ finished)
      × (t.purges ≡ s.purges)
      × ((i ≡ j) ⊎ ((t.callers j ≡ open_) ⊎ (t.callers j ≡ panicked)))
closed_quiet o now i j {t = t} r c q =
    let v = Reach-Inv (init-Inv now) r in
    let (l, e) = finished_quiet (v.over i (ap is_closed c)) q in
    let once = (Reach-Inv v q).once i j (ap has_closed (stays_closed i c q)) in
    (l, e, other (t.callers j) refl once)
  where
    other :
        (k : Closer)
        → t.callers j ≡ k
        → (has_closed (t.callers j) ≡ true → i ≡ j)
        → (i ≡ j) ⊎ ((t.callers j ≡ open_) ⊎ (t.callers j ≡ panicked))
    other open_ e once = inr (inl e)
    other panicked e once = inr (inr e)
    other waiting e once = inl (once (ap has_closed e))
    other closed e once = inl (once (ap has_closed e))

-- The call can return, with at most so many purges more.
abbrev pub CanReturn : Bool → ℕ → ℕ → State → Type 0
CanReturn o i n s = (t : State) × Reach o s t × (t.callers i ≡ closed) × (t.purges ≤ s.purges + n)

cons : {o : Bool} {s t u : State} → Step o s t → Reach o t u → Reach o s u
cons st here = next here st
cons st (next r st') = next (cons st r) st'

module _ (o : Bool) (i : ℕ) where
  CanReturn-Step :
      (n k : ℕ) {s t : State}
      → Step o s t
      → t.purges ≡ s.purges + k
      → CanReturn o i n t
      → CanReturn o i (k + n) s
  CanReturn-Step n k st e (u, r, c, le) = (u, cons st r, c, omega arith)

  from_finished : (s : State) → s.callers i ≡ waiting → s.wait_group ≡ 0 → CanReturn o i 0 s
  from_finished s c w = (_, next here (wait_over i c w), ground arith, omega arith)

  from_draining :
      (s : State) → s.callers i ≡ waiting → Inv s → s.loop ≡ draining → CanReturn o i 0 s
  from_draining s c v l =
      CanReturn-Step 0 0 (drain l (v.full l)) (omega arith)
        (from_finished _ c (ground (arith, v.counted)))

  from_stopping :
      (s : State) → s.callers i ≡ waiting → Inv s → s.loop ≡ stopping → CanReturn o i 0 s
  from_stopping s c v l = elim (Bool-cases (o && s.fired)) [
    | inl late ↦
        CanReturn-Step 0 0 (too_late l late) (omega arith)
          (from_draining _ c (Step-Inv (too_late l late) v) refl)
    | inr early ↦
        CanReturn-Step 0 0 (stop l early) (omega arith)
          (from_finished _ c (ground (arith, v.counted)))
  ]

  from_selecting :
      (s : State) → s.callers i ≡ waiting → Inv s → s.loop ≡ selecting → CanReturn o i 0 s
  from_selecting s c v l =
      let st = see_closed l (v.shut i (ap has_closed c)) in
      CanReturn-Step 0 0 st (omega arith) (from_stopping _ c (Step-Inv st v) refl)

  from_purging : (s : State) → s.callers i ≡ waiting → Inv s → s.loop ≡ purging → CanReturn o i 1 s
  from_purging s c v l =
      CanReturn-Step 0 1 (purge l) (omega arith)
        (from_selecting _ c (Step-Inv {o = o} (purge l) v) refl)

  weaken : {s : State} → CanReturn o i 0 s → CanReturn o i 1 s
  weaken (t, q, k, le) = (t, q, k, omega arith)

  waiting-CanReturn :
      (s : State) (l : Loop) → s.loop ≡ l → s.callers i ≡ waiting → Inv s → CanReturn o i 1 s
  waiting-CanReturn s purging l c v = from_purging s c v l
  waiting-CanReturn s selecting l c v = weaken (from_selecting s c v l)
  waiting-CanReturn s stopping l c v = weaken (from_stopping s c v l)
  waiting-CanReturn s draining l c v = weaken (from_draining s c v l)
  waiting-CanReturn s finished l c v = weaken (from_finished s c (ground (arith, v.counted)))

-- From every state in which a call of `Close` waits, it can return, after one more purge at most:
-- there is no deadlock between it and the purger.
pub close_returns :
    (o : Bool) (now i : ℕ) {s : State}
    → Reach o (init now) s
    → s.callers i ≡ waiting
    → CanReturn o i 1 s
close_returns o now i {s} r c = waiting-CanReturn o i s s.loop refl c (Reach-Inv (init-Inv now) r)
