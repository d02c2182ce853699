-- ===== src/Lock/Timing.antt =====
-- How long `Acquire` and `Unlock` take.
use native.Mathlib.Nat.{suc-mul, mul-le-mul_right}
use dp_mongodb.Base.{ℕ, zero, suc, ◌+◌, ◌*◌, ◌≤◌, ◌≡◌, ap, String, Option, some, Bool, arith}
use dp_mongodb.Base.Int.{ℤ, pos_part}
use dp_mongodb.Errors.{Err}
use dp_mongodb.Lock.{Settings, World, Lock, lock, acquire, unlock, unlock_once, Ending}
use dp_mongodb.Lock.Retry.{Wait, Ran, EndsAt, settled, at_limit, on_closing, state_at}
use dp_mongodb.Lock.Acquire.{acquire-Ran, unlock-Ran}

-- The loop, where an attempt takes at most `a` and a wait at most `w`.
module _ {S R : Type 0} (attempt : S → R × S) (fails : R → Bool) (exhausted aborted : R)
    (wait : S → Wait × S) (max_retries : ℤ) (time : S → ℕ) (a w : ℕ)
    (attempt-time : (s : S) → time (attempt s).1 ≤ time s + a)
    (wait-time : (s : S) → time (wait s).1 ≤ time s + w) where
  state_at-time :
      (n : ℕ) (s : S)
      → time (state_at attempt fails exhausted aborted wait max_retries n s) ≤ time s + n * (a + w)
  unfolding state_at
  state_at-time zero s = omega arith
  state_at-time (suc n) s = omega (
    arith,
    suc-mul n (a + w),
    state_at-time n (wait (attempt s).1).1,
    wait-time (attempt s).1,
    attempt-time s,
  )

  round-time :
      (k : ℕ) (s : S)
      → k ≤ pos_part max_retries
      → time s + k * (a + w) ≤ time s + pos_part max_retries * (a + w)
  round-time k s le = omega (arith, mul-le-mul_right (a + w) le)

  -- The last wait, if the closer channel ends the loop, is one of `max_retries`.
  Ran-time :
      (s : S) {out : R × S}
      → Ran attempt fails exhausted aborted wait max_retries s out
      → time out.1 ≤ time s + (pos_part max_retries * (a + w) + a)
  Ran-time s {out} r = ended r.ends
    where
      u : S
      u = state_at attempt fails exhausted aborted wait max_retries r.last s

      ended :
          EndsAt attempt fails exhausted aborted wait max_retries r.last u out
          → time out.1 ≤ time s + (pos_part max_retries * (a + w) + a)
      ended (settled fine e) = omega (
        arith,
        ap (λ x. time x.1) e,
        attempt-time u,
        state_at-time r.last s,
        round-time r.last s r.bounded,
      )
      ended (at_limit failed limit e) = omega (
        arith,
        ap (λ x. time x.1) e,
        attempt-time u,
        state_at-time r.last s,
        round-time r.last s r.bounded,
      )
      ended (on_closing failed below closed e) =
          let early : suc r.last ≤ pos_part max_retries = ground (arith, below) in
          omega (
            arith,
            ap (λ x. time x.1) e,
            wait-time (attempt u).1,
            attempt-time u,
            suc-mul r.last (a + w),
            state_at-time r.last s,
            round-time (suc r.last) s early,
          )

-- A world in which time passes: a call of the clock or of the client takes at most `call`, and a
-- timer is at most `late`, both in nanoseconds.
pub record IsTimed (W : World) : Type 0 where
  pub time : W.State → ℕ
  pub call : ℕ
  pub late : ℕ
  pub time-x_lock :
      (name lock_id : String) (ttl : ℕ) (s : W.State)
      → time (W.x_lock name lock_id ttl s).1 ≤ time s + call
  pub time-unlock : (lock_id : String) (s : W.State) → time (W.unlock lock_id s).1 ≤ time s + call
  pub time-generate_time_id : (s : W.State) → time (W.generate_time_id s).1 ≤ time s + call
  pub time-wait : (period : ℕ) (s : W.State) → time (W.wait period s).1 ≤ time s + (period + late)

module _ (W : World) (T : IsTimed W) (settings : Settings) (s : W.State) where
  open T use {time, call, late, time-x_lock, time-unlock, time-generate_time_id, time-wait}

  lock-time :
      (l : Lock) (id : String) (u : W.State) → time (lock W l id u).1 ≤ time u + (call + call)
  unfolding lock
  lock-time l id u = omega (arith, time-generate_time_id u, time-x_lock _ _ _ _)

  unlock_once-time :
      (lock_id : String) (u : W.State) → time (unlock_once W lock_id u).1 ≤ time u + call
  unfolding unlock_once
  unlock_once-time lock_id u = time-unlock lock_id u

  -- Where the calls of the client and of the clock take at most some time each, and a timer is late
  -- by some time at most: `Acquire` returns within `AcquireMaxRetries` times the period, the delay of
  -- a timer and the time of two calls, and once more the time of two calls. `Unlock` returns within
  -- `UnlockMaxRetries` times its period, the delay and the time of a call, and once more the time of
  -- a call.
  pub retries_time :
      (l : Lock) (id lock_id : String)
      → ((out : (String × Option Err) × W.State) × (acquire W settings l id s ≡ some out)
          × (time out.1
              ≤ time s
                + (pos_part settings.acquire_max_retries
                      * (call + call + (settings.acquire_period + late))
                    + (call + call))))
        × ((out : Ending × W.State) × (unlock W settings lock_id s ≡ some out)
            × (time out.1
                ≤ time s
                  + (pos_part settings.unlock_max_retries * (call + (settings.unlock_period + late))
                      + call)))
  retries_time l id lock_id =
      let (out, run, r) = acquire-Ran W settings l id s in
      let (out', run', r', _) = unlock-Ran W settings lock_id s in
      (
        (
          out,
          run,
          Ran-time _ _ _ _ _ _ time (call + call) (settings.acquire_period + late) (lock-time l id)
              (time-wait settings.acquire_period) s r,
        ),
        (
          out',
          run',
          Ran-time _ _ _ _ _ _ time call (settings.unlock_period + late) (unlock_once-time lock_id)
              (time-wait settings.unlock_period) s r',
        ),
      )
