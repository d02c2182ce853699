-- ===== src/Lock.antt =====
-- dplock/dplock.go: a lock for a resource, over the lock client of mongo-lock.
pub mod Retry
pub mod Decimal
pub mod Ids
pub mod Server
pub mod Holding
pub mod Exclusion
pub mod Acquire
pub mod Timing
pub mod Purger
pub mod Setup
use dp_mongodb.Base.{ℕ, ◌*◌, String, ◌<>◌, Bool, true, false, Option, none, some}
use dp_mongodb.Base.Int.{ℤ, pos}
use dp_mongodb.Errors.{
  Err, named, name_eq, already_locked, mongo_db_closing, acquire_max_retries, unlock_max_retries,
}
use dp_mongodb.Lock.Retry.{Wait, retry}
use dp_mongodb.Lock.Decimal.{decimal}

-- `TTL`, in seconds
abbrev pub ttl : ℕ
ttl = 30

-- The package's variables: periods in nanoseconds, and how often the loops retry.
pub record Settings : Type 0 where
  pub acquire_period : ℕ
  pub unlock_period : ℕ
  pub acquire_max_retries : ℤ
  pub unlock_max_retries : ℤ

abbrev pub default_settings : Settings
default_settings = record {
  acquire_period = 250 * 1_000_000;
  unlock_period = 5 * 1_000_000;
  acquire_max_retries = pos 10;
  unlock_max_retries = pos 100;
}

-- What a lock uses and does not implement: the methods of `Client`, the clock, and the `select` on a
-- new timer and the closer channel.
pub record World : Type 1 where
  pub State : Type 0
  -- `XLock` of a resource name, with a lock's id and its time to live
  pub x_lock : String → String → ℕ → State → Option Err × State
  -- the error of the client's `Unlock`
  pub unlock : String → State → Option Err × State
  -- `GenerateTimeID`
  pub generate_time_id : State → ℕ × State
  pub wait : ℕ → State → Wait × State

-- The field `Resource` of a `Lock`. Its client, closer channel and wait group are in the world.
pub record Lock : Type 0 where
  pub resource : String

-- `err == lock.ErrAlreadyLocked`
abbrev pub is_already_locked : Option Err → Bool
is_already_locked (some (named n)) = name_eq n already_locked
is_already_locked _ = false

-- What `Unlock` comes to, which the code writes to its log at most.
pub data Ending : Type 0 where
  released : Ending
  -- the client's error, after which the loop goes on
  refused : Err → Ending
  gave_up : Err → Ending
  closing : Ending

abbrev pub is_refused : Ending → Bool
is_refused (refused e) = true
is_refused _ = false

abbrev pub unlock_ending : Option Err → Ending
unlock_ending none = released
unlock_ending (some e) = refused e

-- `fmt.Sprintf("%s-%s", l.Resource, resourceID)`
abbrev pub resource_name : Lock → String → String
resource_name l resource_id = l.resource <> ("-" <> resource_id)

-- `fmt.Sprintf("%s-%s-%d", l.Resource, resourceID, …)`
abbrev pub lock_id_at : Lock → String → ℕ → String
lock_id_at l resource_id time = resource_name l resource_id <> ("-" <> decimal time)

module _ (W : World) where
  open W use {State}

  -- `Lock.Lock`: the lock's id and the error
  unfoldable pub lock : Lock → String → State → (String × Option Err) × State
  lock l resource_id s =
      let (time, t) = W.generate_time_id s in
      let lock_id = lock_id_at l resource_id time in
      let (err, u) = W.x_lock (resource_name l resource_id) lock_id ttl t in ((lock_id, err), u)

  -- `none` would mean that the loop's fuel has run out.
  unfoldable pub acquire : Settings → Lock → String → State → Option ((String × Option Err) × State)
  acquire settings l id =
      retry (lock l id) (λ r. is_already_locked r.1) ("", some (named acquire_max_retries))
        ("", some (named mongo_db_closing)) (W.wait settings.acquire_period)
        settings.acquire_max_retries

  unfoldable pub unlock_once : String → State → Ending × State
  unlock_once lock_id s = let (err, t) = W.unlock lock_id s in (unlock_ending err, t)

  unfoldable pub unlock : Settings → String → State → Option (Ending × State)
  unfolding unlock_once
  unlock settings lock_id =
      retry (unlock_once lock_id) is_refused (gave_up (named unlock_max_retries)) closing
        (W.wait settings.unlock_period) settings.unlock_max_retries
