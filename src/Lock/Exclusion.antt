-- ===== src/Lock/Exclusion.antt =====
-- Any number of processes that lock and unlock ids of one resource, each with its own `Lock` but
-- over one server, interleaved in any order with each other, with the purger and with the passing
-- of time.
pub mod Claims
pub mod Laws
use Prim.Native.Nat.{◌^◌}
use dp_mongodb.Base.{
  ℕ, ◌<◌, ◌≡◌, ◌≢◌, ◌⊎◌, String, Bool, true, false, Option, none, some, ◌==◌, if◌then◌else◌,
}
use dp_mongodb.Errors.{Err}
use dp_mongodb.Lock.{World, Lock, lock, unlock_once, resource_name, lock_id_at}
use dp_mongodb.Lock.Server.{IsLockServer}

-- What a process got from `Lock`.
pub record Claim : Type 0 where
  pub id : String
  pub time : ℕ
  -- the lock's time to live is over
  pub expired : Bool

pub data Status : Type 0 where
  idle : Status
  -- between the return of `Lock`, without an error, and the call of `Unlock`
  holding : Claim → Status
  -- in the loop of `Unlock`
  leaving : Claim → Status

abbrev pub claim_of : Status → Option Claim
claim_of idle = none
claim_of (holding c) = some c
claim_of (leaving c) = some c

abbrev pub update : (ℕ → Status) → ℕ → Status → ℕ → Status
update f p x q = if p == q then x else f q

-- No other process has a claim with this time id.
abbrev pub IsNewTime : (ℕ → Status) → ℕ → Type 0
IsNewTime status time = (p : ℕ) (c : Claim) → claim_of (status p) ≡ some c → c.time ≢ time

module _ (W : World) (L : IsLockServer W) (l : Lock) where
  open W use {State}
  open L use {held_by}

  pub record System : Type 0 where
    pub server : State
    pub status : ℕ → Status

  abbrev pub init : State → System
  init s = record { server = s; status = λ p. idle }

  abbrev pub name : Claim → String
  name c = resource_name l c.id

  abbrev pub lock_id : Claim → String
  lock_id c = lock_id_at l c.id c.time

  -- The claim that a call of `Lock` at this server makes.
  abbrev pub new_claim : String → State → Claim
  new_claim id s = record { id = id; time = (W.generate_time_id s).0; expired = false }

  -- `Allowed` says which time ids a new claim may have.
  pub data Step (Allowed : (ℕ → Status) → ℕ → Type 0) (s : System) : System → Type 0 where
    granted :
        (p : ℕ) (id : String)
        → s.status p ≡ idle
        → (lock W l id s.server).0.1 ≡ none
        → Allowed s.status (W.generate_time_id s.server).0
        → Step Allowed s (record {
          server = (lock W l id s.server).1;
          status = update s.status p (holding (new_claim id s.server));
        })
    refused :
        (p : ℕ) (id : String) (e : Err)
        → s.status p ≡ idle
        → (lock W l id s.server).0.1 ≡ some e
        → Step Allowed s (record s { server = (lock W l id s.server).1 })
    -- the time to live of a lock is over
    expire :
        (p : ℕ) (c : Claim)
        → s.status p ≡ holding c
        → Step Allowed s
            (record s { status = update s.status p (holding (record c { expired = true })) })
    -- a round of the loop of `Unlock`, the first or a later one
    unlock :
        (p : ℕ) (c : Claim)
        → (s.status p ≡ holding c) ⊎ (s.status p ≡ leaving c)
        → Step Allowed s (record {
          server = (unlock_once W (lock_id c) s.server).1;
          status = update s.status p (leaving c);
        })
    -- `Unlock` returns
    left :
        (p : ℕ) (c : Claim)
        → s.status p ≡ leaving c
        → Step Allowed s (record s { status = update s.status p idle })
    -- a purge, or whatever else goes on at the server: it takes away no lock that has not expired
    environment :
        (t : State)
        → ((p : ℕ) (c : Claim)
            → s.status p ≡ holding c
            → c.expired ≡ false
            → held_by s.server (name c) ≡ some (lock_id c)
            → held_by t (name c) ≡ some (lock_id c))
        → Step Allowed s (record s { server = t })

  pub data Reach (Allowed : (ℕ → Status) → ℕ → Type 0) (s : System) : System → Type 0 where
    here : Reach Allowed s s
    next : {t u : System} → Reach Allowed s t → Step Allowed t u → Reach Allowed s u
