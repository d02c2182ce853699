-- ===== src/Lock/Acquire.antt =====
-- How `Lock.Acquire` and `Lock.Unlock` end.
use dp_mongodb.Base.{
  ℕ, ◌≤◌, ◌<◌, ◌≡◌, ◌≢◌, refl, sym, ap, ◌∙◌, String, true, Option, none, some, arith,
}
use mathlib.Core.Path.{subst}
use mathlib.Core.Option.{some-injective}
use dp_mongodb.Base.Int.{pos, pos_part}
use dp_mongodb.Errors.{
  Err, named, name_eq, Name-discrete, already_locked, acquire_max_retries, mongo_db_closing,
  unlock_max_retries,
}
use dp_mongodb.Lock.Retry.{
  timer_fired, Ran, EndsAt, settled, at_limit, on_closing, state_at, retry-Ran, retry_at,
}
use dp_mongodb.Lock.{
  Settings, World, Lock, lock, acquire, is_already_locked, unlock, unlock_once, Ending, refused,
  gave_up, closing, is_refused,
}

already_locked_lem : is_already_locked (some (named already_locked)) ≡ true
unfolding name_eq Name-discrete
already_locked_lem = refl

module _ (W : World) (settings : Settings) where
  module _ (l : Lock) (resource_id : String) where
    -- How a call of `Acquire` went: its attempts, and what it returned with the last of them.
    abbrev pub AcquireRan : W.State → (String × Option Err) × W.State → Type 0
    AcquireRan =
        Ran (lock W l resource_id) (λ r. is_already_locked r.1)
          ("", some (named acquire_max_retries)) ("", some (named mongo_db_closing))
          (W.wait settings.acquire_period) settings.acquire_max_retries

    -- The state before an attempt of `Acquire`, counted from 0, if the lock was held at all attempts
    -- before it and the closer channel was open.
    abbrev pub before_attempt : ℕ → W.State → W.State
    before_attempt =
        state_at (lock W l resource_id) (λ r. is_already_locked r.1)
          ("", some (named acquire_max_retries)) ("", some (named mongo_db_closing))
          (W.wait settings.acquire_period) settings.acquire_max_retries

    -- `Acquire` always returns. There is a last attempt, whose number, from 0 on, is at most
    -- `AcquireMaxRetries`; every attempt before it found the lock held, and the wait after it ended
    -- by the timer. The call returns what the last attempt returned, if that is not that the lock
    -- is held; `ErrAcquireMaxRetries`, if it is and no retries are left; and `ErrMongoDbClosing`,
    -- if it is, retries are left and the closer channel was closed during the wait.
    pub acquire-Ran :
        (s : W.State)
        → (out : (String × Option Err) × W.State) × (acquire W settings l resource_id s ≡ some out)
          × AcquireRan s out
    unfolding acquire
    acquire-Ran s = retry-Ran _ _ _ _ _ _ s

    acquire_out :
        (s : W.State) {out : (String × Option Err) × W.State}
        → acquire W settings l resource_id s ≡ some out
        → AcquireRan s out
    acquire_out s e =
        subst (AcquireRan s) (some-injective _ _ (sym (acquire-Ran s).1 ∙ e)) (acquire-Ran s).2

    -- If `Acquire` returns a lock's id and no error, one of its attempts, at most
    -- `AcquireMaxRetries` + 1 of them, was granted the lock with that id, and the call left the world
    -- as that attempt did.
    pub acquire_granted :
        (s t : W.State) (lock_id : String)
        → acquire W settings l resource_id s ≡ some ((lock_id, none), t)
        → (k : ℕ) × (k ≤ pos_part settings.acquire_max_retries)
          × (lock W l resource_id (before_attempt k s) ≡ ((lock_id, none), t))
    acquire_granted s t lock_id e = granted (acquire_out s e)
      where
        granted :
            AcquireRan s ((lock_id, none), t)
            → (k : ℕ) × (k ≤ pos_part settings.acquire_max_retries)
              × (lock W l resource_id (before_attempt k s) ≡ ((lock_id, none), t))
        granted r = (r.last, r.bounded, ended (before_attempt r.last s) r.ends)
          where
            ended :
                {k : ℕ} (u : W.State)
                → EndsAt
                    (lock W l resource_id)
                    (λ r. is_already_locked r.1)
                    ("", some (named acquire_max_retries))
                    ("", some (named mongo_db_closing))
                    (W.wait settings.acquire_period)
                    settings.acquire_max_retries
                    k
                    u
                    ((lock_id, none), t)
                → lock W l resource_id u ≡ ((lock_id, none), t)
            ended u (settled fine q) = sym q
            ended u (at_limit held limit q) = cc
            ended u (on_closing held below closed q) = cc

    -- If the lock is granted at some attempt that is no later than the last one allowed, and every
    -- attempt before it finds the lock held and is followed by a wait that ends by the timer, then
    -- `Acquire` returns the id that was granted, and no error.
    pub acquire_if_granted :
        (s t : W.State) (k : ℕ) (lock_id : String)
        → k ≤ pos_part settings.acquire_max_retries
        → ((j : ℕ)
            → j < k
            → (is_already_locked (lock W l resource_id (before_attempt j s)).0.1 ≡ true)
              × ((W.wait settings.acquire_period (lock W l resource_id (before_attempt j s)).1).0
                  ≡ timer_fired))
        → lock W l resource_id (before_attempt k s) ≡ ((lock_id, none), t)
        → acquire W settings l resource_id s ≡ some ((lock_id, none), t)
    unfolding acquire
    acquire_if_granted s t k lock_id le before e =
        retry_at _ _ _ _ _ _ s k _ le before (settled (ap (λ x. is_already_locked x.0.1) e) (sym e))

    -- If every attempt finds the lock held and the closer channel stays open, `Acquire` returns
    -- `ErrAcquireMaxRetries` and no id, after exactly `AcquireMaxRetries` retries.
    acquire_held :
        (s : W.State) (n : ℕ)
        → settings.acquire_max_retries ≡ pos n
        → ((u : W.State) → (lock W l resource_id u).0.1 ≡ some (named already_locked))
        → ((u : W.State) → (W.wait settings.acquire_period u).0 ≡ timer_fired)
        → acquire W settings l resource_id s
          ≡ some (
            ("", some (named acquire_max_retries)),
            (lock W l resource_id (before_attempt n s)).1,
          )
    unfolding acquire
    acquire_held s n limit held no_closing =
        retry_at _ _ _ _ _ _ s n _ (ground arith)
          (λ j u. (fails (before_attempt j s), no_closing _))
          (at_limit (fails (before_attempt n s)) (ground arith) refl)
      where
        fails : (u : W.State) → is_already_locked (lock W l resource_id u).0.1 ≡ true
        fails u = ap is_already_locked (held u) ∙ already_locked_lem

  -- How a call of `Unlock` went.
  abbrev pub UnlockRan : String → W.State → Ending × W.State → Type 0
  UnlockRan lock_id =
      Ran (unlock_once W lock_id) is_refused (gave_up (named unlock_max_retries)) closing
        (W.wait settings.unlock_period) settings.unlock_max_retries

  -- `Unlock` always returns, after `UnlockMaxRetries` + 1 attempts at most: as soon as the client has
  -- unlocked, or when no retries are left, or when the closer channel is closed during a wait. It
  -- never returns on an error of the client alone.
  pub unlock-Ran :
      (lock_id : String) (s : W.State)
      → (out : Ending × W.State) × (unlock W settings lock_id s ≡ some out)
        × UnlockRan lock_id s out
        × ((e : Err) → out.0 ≢ refused e)
  unfolding unlock
  unlock-Ran lock_id s =
      let (out, run, r) = retry-Ran _ _ _ _ _ _ s in (out, run, r, λ e q. ended r.ends q)
    where
      ended :
          {k : ℕ} {u : W.State} {out : Ending × W.State} {e : Err}
          → EndsAt
              (unlock_once W lock_id)
              is_refused
              (gave_up (named unlock_max_retries))
              closing
              (W.wait settings.unlock_period)
              settings.unlock_max_retries
              k
              u
              out
          → ¬ (out.0 ≡ refused e)
      ended (settled fine q) h = cc
      ended (at_limit held limit q) h = cc
      ended (on_closing held below closed q) h = cc
