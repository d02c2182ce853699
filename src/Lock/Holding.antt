-- ===== src/Lock/Holding.antt =====
-- What `Acquire` and `Unlock` do to the locks of a server.
use mathlib.Core.Path.{subst}
use mathlib.Core.Option.{some-injective}
use dp_mongodb.Base.{ℕ, ◌≤◌, ◌≡◌, ◌≢◌, sym, ap, ◌∙◌, String, none, some, arith}
use dp_mongodb.Base.Int.{pos_part}
use dp_mongodb.Errors.{named, unlock_max_retries}
use dp_mongodb.Lock.{
  Settings, World, Lock, acquire, unlock, unlock_once, resource_name, released, gave_up, closing,
  is_refused,
}
use dp_mongodb.Lock.Retry.{EndsAt, settled, at_limit, on_closing}
use dp_mongodb.Lock.Acquire.{before_attempt, acquire_granted, UnlockRan, unlock-Ran}
use dp_mongodb.Lock.Server.{IsLockServer, lock_granted}

module _ (W : World) (L : IsLockServer W) (settings : Settings) where
  open L use {held_by}

  -- At a server with the documented laws of mongo-lock: if `Acquire` returns an id and no error,
  -- the lock on the resource name has this id at the server when it returns, and there was no lock
  -- on that name before the attempt that was granted, one of at most `AcquireMaxRetries` + 1
  -- attempts.
  pub acquire_holds :
      (l : Lock) (resource_id lock_id : String) (s t : W.State)
      → acquire W settings l resource_id s ≡ some ((lock_id, none), t)
      → (held_by t (resource_name l resource_id) ≡ some lock_id)
        × (k : ℕ) × (k ≤ pos_part settings.acquire_max_retries)
        × (held_by (before_attempt W settings l resource_id k s) (resource_name l resource_id)
            ≡ none)
  acquire_holds l resource_id lock_id s t e =
      let (k, le, h) = acquire_granted W settings l resource_id s t lock_id e in
      let (free, held) =
        lock_granted W L l resource_id (before_attempt W settings l resource_id k s)
          (ap (λ r. r.0.1) h) in
      (subst (λ r. held_by r.1 (resource_name l resource_id) ≡ some r.0.0) h held, k, le, free)

  once_released :
      (id : String) (u t : W.State)
      → unlock_once W id u ≡ (released, t)
      → (n : String) → held_by t n ≢ some id
  unfolding unlock_once
  once_released id u t e n =
      let gone : (W.unlock id u).0 ≡ none = ground (arith, ap (λ x. x.0) e) in
      subst (λ v. held_by v n ≢ some id) (ap (λ x. x.1) e) (L.unlocked id n u gone)

  -- At a server with the documented laws of mongo-lock: if `Unlock` ends since the client has
  -- unlocked, there is no lock with the id at the server when it returns.
  pub unlock_releases :
      (lock_id n : String) (s t : W.State)
      → unlock W settings lock_id s ≡ some (released, t)
      → held_by t n ≢ some lock_id
  unlock_releases lock_id n s t e =
      ended
        (subst (UnlockRan W settings lock_id s)
          (some-injective _ _ (sym (unlock-Ran W settings lock_id s).1 ∙ e))
          (unlock-Ran W settings lock_id s).2).ends
    where
      ended :
          {k : ℕ} {u : W.State}
          → EndsAt
              (unlock_once W lock_id)
              is_refused
              (gave_up (named unlock_max_retries))
              closing
              (W.wait settings.unlock_period)
              settings.unlock_max_retries
              k
              u
              (released, t)
          → held_by t n ≢ some lock_id
      ended {u} (settled fine q) = once_released lock_id u t (sym q) n
      ended (at_limit held limit q) = cc
      ended (on_closing held below closed q) = cc
