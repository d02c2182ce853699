-- ===== src/Lock/Setup.antt =====
-- `New`: a lock for a resource, over the lock client of the resource's own collection.
use dp_mongodb.Base.{ℕ, ◌≡◌, sym, ap, ◌∙◌, String, ◌<>◌, Option}
use dp_mongodb.Errors.{Err}
use dp_mongodb.Connection.Handles.{Handles, MongoConnection, collection, new_lock_client}
use dp_mongodb.Lock.{Lock}
use dp_mongodb.Lock.Purger
use dp_mongodb.Lock.Purger.{State}
use text.Mathlib.TextLemmas.{append_cancel_right}

-- `fmt.Sprintf("%s_locks", resource)`
abbrev pub lock_collection : String → String
lock_collection resource = resource <> "_locks"

-- A lock with its client, which its purger has too, and with the purger's goroutine as `Init` leaves
-- it.
pub record Started (LockClient : Type 0) : Type 0 where
  pub lock : Lock
  pub client : LockClient
  pub purger : State

-- What the driver and mongo-lock document of their handles: a collection has the name that it was
-- asked for, and a lock client is for the collection that it was given.
pub record IsNaming (H : Handles) : Type 0 where
  pub name : H.Handle → String
  pub locks_in : H.LockClient → H.Handle
  pub name-collection : (d : H.Database) (n : String) → name (H.collection d n) ≡ n
  pub locks_in-new_client : (h : H.Handle) → locks_in (H.new_client h) ≡ h

-- The clock and the client's `CreateIndexes` are parameters.
module _ (H : Handles) {S : Type 0} (clock : S → ℕ)
    (create_indexes : H.LockClient → S → Option Err × S) where
  open H use {Client, LockClient}

  -- The error of `CreateIndexes` is not read.
  unfoldable pub new : MongoConnection Client → String → S → Started LockClient × S
  new connection resource s =
      let client = new_lock_client H (collection H connection (lock_collection resource)) in
      let (err, t) = create_indexes client s in
      (
        record {
          lock = record { resource = resource };
          client = client;
          purger = Purger.init (clock t);
        },
        t,
      )

  -- Where a collection of the driver has the name that it was asked for, and a client of mongo-lock
  -- is for the collection that it was given: two locks that `New` makes, over connections to
  -- whichever databases, have the same client only if they are for the same resource.
  pub new-injective :
      IsNaming H
      → (c d : MongoConnection Client) (q r : String) (s t : S)
      → (new c q s).0.client ≡ (new d r t).0.client
      → q ≡ r
  unfolding new new_lock_client collection
  new-injective N c d q r s t e = append_cancel_right q r "_locks" (
      sym (N.name-collection _ _)
      ∙ ap N.name (sym (N.locks_in-new_client _) ∙ ap N.locks_in e ∙ N.locks_in-new_client _)
      ∙ N.name-collection _ _)
