-- ===== src/Timestamps/Stamping.antt =====
-- What `WithUpdates` and `WithNamespacedUpdates` do to a document.
use dp_mongodb.Base.{ℕ, ◌≤◌, ◌≡◌, ◌++◌, String, true, none, List, [], ◌∷◌, length}
use dp_mongodb.Timestamps.Heap.{at, bool, m, Heap, value}
use dp_mongodb.Timestamps.{
  last_updated_key, unique_timestamp_key, with_updates, with_namespaced_updates,
}
use dp_mongodb.Timestamps.Laws.{IsDoc, Stamps}
use dp_mongodb.Timestamps.Updates.{
  IsTyped, AllTyped, prefixed, flags, refs, with_updates-Stamps, with_namespaced_updates-Stamps,
}

-- `WithUpdates` and `WithNamespacedUpdates` on a document return the document and no error. Its
-- "$currentDate" then has, for the former, `last_updated: true` and a new `{"$type": "timestamp"}` as
-- `unique_timestamp`, and, for the latter, the same under each prefix with these names. It keeps its
-- other entries, and nothing else that was in use has changed. Of equal keys the later assignment
-- counts, and the unique timestamps come later.
pub updates-Stamps :
    (h : Heap) (a : ℕ) (prefixes : List String)
    → IsDoc h a
    → ((h' : Heap) × (t : ℕ) × (with_updates (at a) h ≡ (value (at a, none), h'))
        × Stamps h h' a ((unique_timestamp_key, m (at t)) ∷ (last_updated_key, bool true) ∷ [])
        × IsTyped h' a t
        × (h.next ≤ t))
      × ((h' : Heap) × (ts : List ℕ) × (with_namespaced_updates (at a) prefixes h
            ≡ (value (at a, none), h'))
          × Stamps h h' a (
              prefixed unique_timestamp_key prefixes (refs ts)
              ++ prefixed last_updated_key prefixes (flags prefixes))
          × AllTyped h' a ts
          × (length ts ≡ length prefixes))
updates-Stamps h a prefixes doc =
    (with_updates-Stamps h a doc, with_namespaced_updates-Stamps h a prefixes doc)
