-- ===== src/Tests/Handles.antt =====
-- The handles of a connection, and the locks that `New` makes of them.
use dp_mongodb.Base.{ℕ, suc, ◌≡◌, refl, String, Option, none}
use dp_mongodb.Errors.{Err}
use dp_mongodb.Connection.Handles.{
  Handles, MongoConnection, new_mongo_connection, collection, must, new_lock_client,
}
use dp_mongodb.Lock.Setup.{IsNaming, new, new-injective}

-- Handles that say what they are of: a client by its number.
abbrev handles : Handles
handles = record {
  Client = ℕ;
  Database = ℕ × String;
  Handle = (ℕ × String) × String;
  LockClient = (ℕ × String) × String;
  database = (λ c n. (c, n));
  collection = (λ d n. (d, n));
  new_client = (λ h. h);
}

abbrev connection : MongoConnection ℕ
connection = new_mongo_connection 4 "db"

abbrev create_indexes : (ℕ × String) × String → ℕ → Option Err × ℕ
create_indexes client s = (none, suc s)

must_run : (must (collection handles connection "people")).collection.handle ≡ ((4, "db"), "people")
unfolding collection
must_run = refl

new_run :
    ((new handles (λ s. s) create_indexes connection "files" 0).0.client
      ≡ ((4, "db"), "files_locks"))
    × ((new handles (λ s. s) create_indexes connection "files" 0).1 ≡ 1)
unfolding new new_lock_client collection
new_run = (refl, refl)

abbrev naming : IsNaming handles
naming = record {
  name = (λ h. h.1);
  locks_in = (λ l. l);
  name-collection = (λ d n. refl);
  locks_in-new_client = (λ h. refl);
}

abbrev files : String
files = "files"

-- The client tells the resource.
same_resource : files ≡ files
unfolding new
same_resource =
    new-injective handles (λ s. s) create_indexes naming connection connection files files 0 1 refl
