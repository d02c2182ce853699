-- ===== src/Tests/Documents.antt =====
-- The theorems on timestamps at a document.
use dp_mongodb.Base.{
  ℕ, ◌≤◌, ◌<◌, ◌≡◌, ◌≢◌, ◌++◌, ◌⊎◌, refl, String, true, Option, none, some, List, [], ◌∷◌, length,
  arith, if◌then◌else◌, ◌==◌,
}
use dp_mongodb.Base.Text.{str_eq}
use dp_mongodb.Timestamps.Heap.{nil_map, at, Val, bool, m, other, Heap, value, panic}
use dp_mongodb.Timestamps.{
  last_updated_key, unique_timestamp_key, with_current_date, with_updates, with_namespaced_updates,
  Timestamp, with_namespaced_unique_timestamp_query,
}
use dp_mongodb.Timestamps.Laws.{IsDoc, dated, Stamps}
use dp_mongodb.Timestamps.Updates.{IsTyped, AllTyped, prefixed, flags, refs}
use dp_mongodb.Timestamps.Stamping.{updates-Stamps}
use dp_mongodb.Timestamps.Queries.{
  queried, namespaced_query_outcome, Ending, with_current_date-Ending,
}

-- `{"$set": …, "$currentDate": {"seen": true}}` at 0, and its "$currentDate" at 1
abbrev entries : ℕ → String → Option Val
entries a k =
    if a == 0
    then (if str_eq k "$set"
        then some (other 7)
        else if str_eq k "$currentDate"
        then some (m (at 1))
        else none)
    else (if str_eq k "seen" then some (bool true) else none)

abbrev heap : Heap
heap = record { next = 2; maps = entries }

heap-IsDoc : IsDoc heap 0
heap-IsDoc = dated 1 (omega arith) (omega arith) (omega arith) refl

updated : (with_updates (at 0) heap).1.maps 1 "last_updated" ≡ some (bool true)
unfolding with_updates
updated = refl

abbrev prefixes : List String
prefixes = "nixed." ∷ "currant." ∷ []

updates-Stamps_example :
    ((h' : Heap) × (t : ℕ) × (with_updates (at 0) heap ≡ (value (at 0, none), h'))
      × Stamps heap h' 0 ((unique_timestamp_key, m (at t)) ∷ (last_updated_key, bool true) ∷ [])
      × IsTyped h' 0 t
      × (2 ≤ t))
    × ((h' : Heap) × (ts : List ℕ) × (with_namespaced_updates (at 0) prefixes heap
          ≡ (value (at 0, none), h'))
        × Stamps heap h' 0 (
            prefixed unique_timestamp_key prefixes (refs ts)
            ++ prefixed last_updated_key prefixes (flags prefixes))
        × AllTyped h' 0 ts
        × (length ts ≡ 2))
updates-Stamps_example = updates-Stamps heap 0 prefixes heap-IsDoc

abbrev two : List Timestamp
two = (100, 1) ∷ (100, 2) ∷ []

namespaced_query_outcome_example :
    ((2 < 2) × ((with_namespaced_unique_timestamp_query (at 0) two prefixes heap).0 ≡ panic))
    ⊎ ((2 ≤ 2)
        × ((h' : Heap) × (with_namespaced_unique_timestamp_query (at 0) two prefixes heap
              ≡ (value (at 0), h'))
            × ((k : String) → h'.maps 0 k ≡ queried prefixes two k (heap.maps 0 k))
            × ((b : ℕ) → b ≢ 0 → (k : String) → h'.maps b k ≡ heap.maps b k)))
namespaced_query_outcome_example = namespaced_query_outcome heap 0 two prefixes

too_few : (with_namespaced_unique_timestamp_query (at 0) [] prefixes heap).0 ≡ panic
unfolding with_namespaced_unique_timestamp_query
too_few = refl

with_current_date-Ending_example : Ending heap (at 0) "k" (other 3)
with_current_date-Ending_example = with_current_date-Ending heap (at 0) "k" (other 3)

nil_document : (with_current_date nil_map "k" (bool true) heap).0 ≡ panic
unfolding with_current_date
nil_document = refl
