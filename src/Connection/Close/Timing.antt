-- ===== src/Connection/Close/Timing.antt =====
-- When `Close` returns, and when it says that it timed out.
use dp_mongodb.Base.{
  ℕ, suc, zero, ◌+◌, ◌-◌, ◌≤◌, ◌<◌, ◌≡◌, ◌≢◌, refl, inl, inr, Bool, Bool-cases, ◌&&◌, true, Option,
  none, some, arith,
}
use mathlib.Core.Path.{subst}
use dp_mongodb.Base.Duration.{max_duration}
use dp_mongodb.Connection.Close.{
  time_left, grace, close_time_left, expiry, Result, timed_out, Closer, starting, selecting,
  stopping, draining, returned, State, init, Step, tick, start, fire, fire_late, finish,
  disconnected, hand_over, time_out, context_done, stop, too_late, drain, panic, Reach, here, next,
}
use dp_mongodb.Connection.Close.Laws.{close_drain_ready}

-- The earliest moment at which the timer may fire, for a call at `now`.
abbrev pub earliest : Option ℕ → ℕ → ℕ
earliest none now = now + time_left
earliest (some deadline) now = deadline + grace

-- The time up to the deadline, and 10 ms more, is less than 2 ^ 63 ns.
abbrev pub IsNear : Option ℕ → ℕ → Type 0
IsNear none now = Unit {0}
IsNear (some deadline) now = deadline + grace ≤ now + max_duration

expiry_late :
    (deadline : Option ℕ) (now later : ℕ)
    → IsNear deadline now
    → now ≤ later
    → earliest deadline now ≤ expiry later (close_time_left deadline now)
expiry_late none now later near h = ground arith
expiry_late (some d) now later near h = ground arith

record Inv (deadline : Option ℕ) (now : ℕ) (s : State) : Type 0 where
  forward : now ≤ s.now
  kept : s.close_time ≡ close_time_left deadline now
  set : s.closer ≢ starting → earliest deadline now ≤ s.fires_at
  due : s.fired ≡ true → (earliest deadline now ≤ s.now)
  over : s.closer ≡ returned timed_out → earliest deadline now ≤ s.now
  no_stop : s.closer ≢ stopping timed_out
  no_drain : s.closer ≢ draining timed_out

init-Inv : (deadline : Option ℕ) (now : ℕ) → Inv deadline now (init deadline now)
init-Inv deadline now = ground arith

module _ (deadline : Option ℕ) (now : ℕ) (near : IsNear deadline now) where
  Step-Inv : {o : Bool} {s t : State} → Step o s t → Inv deadline now s → Inv deadline now t
  Step-Inv tick v = ground (arith, v.set)
  Step-Inv {s = s} (start a) v = ground (arith, expiry_late deadline now s.now near v.forward)
  Step-Inv (fire a b) v = ground (arith, v.set)
  Step-Inv (fire_late r a b) v = ground (arith, v.set)
  Step-Inv (finish n a) v = ground (arith, v.set)
  Step-Inv (disconnected a) v = ground (arith, v.set)
  Step-Inv (hand_over a b) v = ground (arith, v.set)
  Step-Inv (time_out a b) v = ground (arith, v.set)
  Step-Inv (context_done n a b) v = ground (arith, v.set)
  Step-Inv (stop r a b) v = ground (arith, v.set)
  Step-Inv (too_late r a b) v = ground (arith, v.set)
  Step-Inv (drain r a b) v = ground (arith, v.set)
  Step-Inv (panic a b) v = ground (arith, v.set)

  Reach-Inv : {o : Bool} {s t : State} → Inv deadline now s → Reach o s t → Inv deadline now t
  Reach-Inv v here = v
  Reach-Inv v (next r st) = Step-Inv st (Reach-Inv v r)

-- Where the time up to the context's deadline, and 10 ms more, fits a `time.Duration`: `Close`
-- returns the error that closing timed out only after the deadline and 10 ms more have passed, or,
-- for a context without a deadline, after 1000 ms.
pub timed_out_late :
    (o : Bool) (deadline : Option ℕ) (now : ℕ) {s : State}
    → IsNear deadline now
    → Reach o (init deadline now) s
    → s.closer ≡ returned timed_out
    → earliest deadline now ≤ s.now
timed_out_late o deadline now near r e =
    (Reach-Inv deadline now near (init-Inv deadline now) r).over e

expiry-far :
    (deadline now : ℕ)
    → now + max_duration < deadline + grace
    → expiry now (close_time_left (some deadline) now) ≡ now
expiry-far deadline now far = ground arith

-- Where the time up to the context's deadline, and 10 ms more, does not fit a `time.Duration`,
-- `Close` can return the error that closing timed out in the very moment of the call.
pub far_timed_out :
    (o : Bool) (deadline now : ℕ)
    → now + max_duration < deadline + grace
    → (s : State) × Reach o (init (some deadline) now) s
      × (s.closer ≡ returned timed_out)
      × (s.now ≡ now)
far_timed_out o deadline now far =
    let due : expiry now (close_time_left (some deadline) now) ≤ now =
      omega (arith, expiry-far deadline now far) in
    (_, next (next (next here (start refl)) (fire refl due)) (time_out refl refl), refl, refl)

module _ (o : Bool) where
  ticks : (n : ℕ) (s : State) → Reach o s (record s { now = n + s.now })
  ticks zero s = subst (λ k. Reach o s (record s { now = k })) (omega arith) here
  ticks (suc n) s =
      subst (λ k. Reach o s (record s { now = k })) (omega arith) (next (ticks n s) tick)

  CanReturn : State → Type 0
  CanReturn s = (t : State) × Reach o s t × (result : Result) × (t.closer ≡ returned result)

  append-Reach : {s t u : State} → Reach o s t → Reach o t u → Reach o s u
  append-Reach r here = r
  append-Reach r (next p st) = next (append-Reach r p) st

  selecting-CanReturn : {s u : State} → Reach o s u → u.closer ≡ selecting → CanReturn s
  unfolding CanReturn
  selecting-CanReturn {u = u} r e =
      let waited = append-Reach r (ticks (u.fires_at - u.now) u) in
      (_, next (next waited (fire e (omega arith))) (time_out e refl), timed_out, refl)

  closer-CanReturn :
      (s : State) (c : Closer)
      → s.closer ≡ c
      → ((result : Result) → c ≡ draining result → s.fired ≡ true)
      → CanReturn s
  unfolding CanReturn
  closer-CanReturn s starting e full = selecting-CanReturn (next here (start e)) refl
  closer-CanReturn s selecting e full = selecting-CanReturn here e
  closer-CanReturn s (stopping result) e full = elim (Bool-cases (o && s.fired)) [
    | inl late ↦ (
      _,
      next (next here (too_late result e late)) (drain result refl (ground arith)),
      result,
      refl,
    )
    | inr early ↦ (_, next here (stop result e early), result, refl)
  ]
  closer-CanReturn s (draining result) e full =
      (_, next here (drain result e (full result refl)), result, refl)
  closer-CanReturn s (returned result) e full = (s, here, result, e)

-- `Close` never gets stuck: from every state that a call can reach it can return.
pub close_can_return :
    (o : Bool) (deadline : Option ℕ) (now : ℕ) {s : State}
    → Reach o (init deadline now) s
    → (t : State) × Reach o s t × (result : Result) × (t.closer ≡ returned result)
unfolding CanReturn
close_can_return o deadline now {s = s} r =
    closer-CanReturn o s s.closer refl (λ result d. close_drain_ready o deadline now result r d)
