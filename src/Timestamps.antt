-- ===== src/Timestamps.antt =====
-- mongodb/timestamp_utils.go. A `bson.M` is a Go map, so a reference: the functions change the map
-- that the caller holds, and the map of its "$currentDate". The maps are kept in a heap.
pub mod Heap
pub mod Laws
pub mod Updates
pub mod Stamping
pub mod Queries
use dp_mongodb.Base.{
  ℕ, suc, ◌+◌, String, ◌<>◌, Bool, true, Option, none, some, List, [], ◌∷◌, get_elem?,
}
use dp_mongodb.Errors.{Err, text}
use dp_mongodb.Timestamps.Heap.{
  Ref, nil_map, Val, bool, m, str, timestamp, other, Program, pure, crash, ◌>>=◌, ◌>>◌, index,
  assign, make,
}

abbrev pub last_updated_key : String
last_updated_key = "last_updated"

abbrev pub unique_timestamp_key : String
unique_timestamp_key = "unique_timestamp"

abbrev pub current_date : String
current_date = "$currentDate"

-- `currentDate, ok = updateDoc["$currentDate"].(bson.M)`, and a new map if that is not ok
unfoldable pub current_date_of : Option Val → Program Ref
current_date_of (some (m r)) = pure r
current_date_of _ = make

-- The rest of `withCurrentDate`, from the type switch on.
unfoldable pub put_current_date : Ref → Ref → String → Val → Program (Ref × Option Err)
put_current_date update_doc date key (bool b) = do
  assign date key (bool b)
  assign update_doc current_date (m date)
  pure (update_doc, none)
put_current_date update_doc date key (m r) = do
  assign date key (m r)
  assign update_doc current_date (m date)
  pure (update_doc, none)
put_current_date update_doc date key _ =
    pure (nil_map, some (text "withCurrentDate: Cannot handle that type"))

unfoldable pub with_current_date : Ref → String → Val → Program (Ref × Option Err)
unfolding current_date_of put_current_date
with_current_date update_doc key val = do
  entry ← index update_doc current_date
  date ← current_date_of entry
  put_current_date update_doc date key val

unfoldable pub with_last_updated_update : Ref → Program (Ref × Option Err)
unfolding with_current_date
with_last_updated_update update_doc = with_current_date update_doc last_updated_key (bool true)

-- `bson.M{"$type": "timestamp"}`
unfoldable pub type_timestamp : Program Ref
type_timestamp = do r ← make; assign r "$type" (str "timestamp"); pure r

unfoldable pub with_unique_timestamp_update : Ref → Program (Ref × Option Err)
unfolding with_current_date type_timestamp
with_unique_timestamp_update update_doc = do
  r ← type_timestamp
  with_current_date update_doc unique_timestamp_key (m r)

-- `if err != nil { return nil, err }` and what follows otherwise
abbrev pub unless_failed :
    Ref × Option Err → (Ref → Program (Ref × Option Err)) → Program (Ref × Option Err)
unless_failed (doc, some e) next = pure (nil_map, some e)
unless_failed (doc, none) next = next doc

unfoldable pub with_updates : Ref → Program (Ref × Option Err)
unfolding with_last_updated_update with_unique_timestamp_update
with_updates update_doc = do
  r ← with_last_updated_update update_doc
  unless_failed r with_unique_timestamp_update

unfoldable pub with_namespaced_last_updated_update : Ref → List String → Program (Ref × Option Err)
unfolding with_current_date
with_namespaced_last_updated_update doc [] = pure (doc, none)
with_namespaced_last_updated_update doc (prefix ∷ prefixes) = do
  r ← with_current_date doc (prefix <> last_updated_key) (bool true)
  unless_failed r (λ d. with_namespaced_last_updated_update d prefixes)

unfoldable pub with_namespaced_unique_timestamp_update :
    Ref → List String → Program (Ref × Option Err)
unfolding with_current_date type_timestamp
with_namespaced_unique_timestamp_update doc [] = pure (doc, none)
with_namespaced_unique_timestamp_update doc (prefix ∷ prefixes) = do
  t ← type_timestamp
  r ← with_current_date doc (prefix <> unique_timestamp_key) (m t)
  unless_failed r (λ d. with_namespaced_unique_timestamp_update d prefixes)

unfoldable pub with_namespaced_updates : Ref → List String → Program (Ref × Option Err)
unfolding with_namespaced_last_updated_update with_namespaced_unique_timestamp_update
with_namespaced_updates update_doc prefixes = do
  r ← with_namespaced_last_updated_update update_doc prefixes
  unless_failed r (λ d. with_namespaced_unique_timestamp_update d prefixes)

-- `primitive.Timestamp{T, I}`
abbrev pub Timestamp : Type 0
Timestamp = ℕ × ℕ

unfoldable pub with_unique_timestamp_query : Ref → Timestamp → Program Ref
with_unique_timestamp_query query_doc (t, i) = do
  assign query_doc unique_timestamp_key (timestamp t i)
  pure query_doc

-- The assignment in the loop of `WithNamespacedUniqueTimestampQuery`. An index out of range panics.
unfoldable pub put_timestamp : Ref → String → Option Timestamp → Program (Unit {0})
put_timestamp doc prefix none = crash
put_timestamp doc prefix (some (t, i)) = assign doc (prefix <> unique_timestamp_key) (timestamp t i)

-- The loop, at the index `idx`.
unfoldable pub query_loop : Ref → List Timestamp → ℕ → List String → Program Ref
unfolding put_timestamp
query_loop doc timestamps idx [] = pure doc
query_loop doc timestamps idx (prefix ∷ prefixes) = do
  put_timestamp doc prefix (get_elem? timestamps idx)
  query_loop doc timestamps (suc idx) prefixes

unfoldable pub with_namespaced_unique_timestamp_query :
    Ref → List Timestamp → List String → Program Ref
unfolding query_loop
with_namespaced_unique_timestamp_query query_doc timestamps prefixes =
    query_loop query_doc timestamps 0 prefixes
