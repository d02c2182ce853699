-- ===== src/Timestamps/Queries.antt =====
-- The query functions, and what goes wrong: unsupported values, nil maps, too few timestamps.
use dp_mongodb.Base.{
  ℕ, zero, suc, ◌+◌, ◌≤◌, ◌<◌, ◌≡◌, refl, ap, ◌∙◌, ◌≢◌, String, ◌<>◌, Option, some, none, ltb,
  Bool-cases, arith, if◌then◌else◌, List, [], ◌∷◌, length, get_elem?, Option-cases, inl, inr, ◌⊎◌,
}
use dp_mongodb.Base.Text.{str_eq}
use dp_mongodb.Errors.{Err, text}
use dp_mongodb.Timestamps.Heap.{
  Ref, nil_map, at, Val, bool, m, str, timestamp, other, Heap, value, panic, pure, entry, make,
  write, ◌>>=◌,
}
use dp_mongodb.Timestamps.{
  unique_timestamp_key, with_current_date, current_date_of, put_current_date, current_date,
  Timestamp, query_loop, with_namespaced_unique_timestamp_query,
}
use dp_mongodb.Timestamps.Laws.{IsDate, flag, map}

-- The entries of a query after the loop's assignments, in order.
abbrev pub queried : List String → List Timestamp → String → Option Val → Option Val
queried [] ts k old = old
queried (p ∷ ps) [] k old = old
queried (p ∷ ps) ((t, i) ∷ ts) k old =
    queried ps ts k (if str_eq (p <> unique_timestamp_key) k then some (timestamp t i) else old)

-- The timestamps from an index on.
abbrev from_index : ℕ → List Timestamp → List Timestamp
from_index zero ts = ts
from_index (suc n) [] = []
from_index (suc n) (t ∷ ts) = from_index n ts

elem_at :
    (idx : ℕ) (ts : List Timestamp)
    → idx < length ts
    → (x : Timestamp) × (get_elem? ts idx ≡ some x)
      × (from_index idx ts ≡ x ∷ from_index (suc idx) ts)
elem_at idx [] u = absurd (omega arith)
elem_at zero (t ∷ ts) u = (t, refl, refl)
elem_at (suc idx) (t ∷ ts) u = elem_at idx ts (omega arith)

elem_lt :
    (idx : ℕ) (ts : List Timestamp) {x : Timestamp} → get_elem? ts idx ≡ some x → idx < length ts
elem_lt idx [] e = cc
elem_lt zero (t ∷ ts) e = omega arith
elem_lt (suc idx) (t ∷ ts) e = omega (arith, elem_lt idx ts e)

query_loop_enough :
    (h : Heap) (a idx : ℕ) (ts : List Timestamp) (ps : List String)
    → length ps + idx ≤ length ts
    → (h' : Heap) × (query_loop (at a) ts idx ps h ≡ (value (at a), h'))
      × ((k : String) → h'.maps a k ≡ queried ps (from_index idx ts) k (h.maps a k))
      × ((b : ℕ) → b ≢ a → (k : String) → h'.maps b k ≡ h.maps b k)
unfolding query_loop
query_loop_enough h a idx ts [] u = (h, refl, λ k. refl, λ b n k. refl)
query_loop_enough h a idx ts (p ∷ ps) u =
    let (x, found, split) = elem_at idx ts (omega arith) in
    let h₁ : Heap = write h a (p <> unique_timestamp_key) (timestamp x.0 x.1) in
    let (h₂, run, here, elsewhere) = query_loop_enough h₁ a (suc idx) ts ps (omega arith) in
    (
      h₂,
      rw (found, query_loop) run,
      λ k. rw split (here k ∙ ap (queried ps (from_index (suc idx) ts) k) (ground arith)),
      λ b n k. elsewhere b n k ∙ ground arith,
    )

query_loop_few :
    (h : Heap) (a idx : ℕ) (ts : List Timestamp) (ps : List String)
    → length ts < length ps + idx
    → idx ≤ length ts
    → (query_loop (at a) ts idx ps h).0 ≡ panic
unfolding query_loop
query_loop_few h a idx ts [] u le = absurd (omega arith)
query_loop_few h a idx ts (p ∷ ps) u le = elim (Option-cases (get_elem? ts idx)) [
  | inl e ↦ rw e refl
  | inr (x, e) ↦ rw e (
      query_loop_few (write h a (p <> unique_timestamp_key) (timestamp x.0 x.1)) a (suc idx) ts ps
        (omega arith) (elem_lt idx ts e))
]

-- `WithNamespacedUniqueTimestampQuery` on a map panics if there are fewer timestamps than prefixes.
-- Otherwise it returns the map, where it has put each prefix's timestamp under the prefix with
-- `unique_timestamp`, a later one over an earlier one under an equal key; other keys, and other maps,
-- are then as they were.
pub namespaced_query_outcome :
    (h : Heap) (a : ℕ) (ts : List Timestamp) (ps : List String)
    → ((length ts < length ps)
        × ((with_namespaced_unique_timestamp_query (at a) ts ps h).0 ≡ panic))
      ⊎ ((length ps ≤ length ts)
          × ((h' : Heap) × (with_namespaced_unique_timestamp_query (at a) ts ps h
                ≡ (value (at a), h'))
              × ((k : String) → h'.maps a k ≡ queried ps ts k (h.maps a k))
              × ((b : ℕ) → b ≢ a → (k : String) → h'.maps b k ≡ h.maps b k)))
unfolding with_namespaced_unique_timestamp_query
namespaced_query_outcome h a ts ps = elim (Bool-cases (ltb (length ts) (length ps))) [
  | inl e ↦
      let u : length ts < length ps = ground (arith, e) in
      inl (u, query_loop_few h a 0 ts ps (omega arith) (omega arith))
  | inr e ↦
      let u : length ps ≤ length ts = ground (arith, e) in
      inr (u, query_loop_enough h a 0 ts ps (omega arith))
]

refused :
    (h : Heap) (o : Option Val) (x : Ref × Option Err)
    → ((current_date_of o >>= λ _. pure x) h).0 ≡ value x
      × ((b : ℕ)
          → b < h.next
          → (k : String) → ((current_date_of o >>= λ _. pure x) h).1.maps b k ≡ h.maps b k)
unfolding current_date_of
refused h (some (m r)) x = (refl, λ b u k. refl)
refused h _ x = (refl, λ b u k. ground arith)

-- How `withCurrentDate` ends.
pub data Ending (h : Heap) (r : Ref) (key : String) (v : Val) : Type 0 where
  panicked :
      IsDate v
      → (r ≡ nil_map) ⊎ (entry h r current_date ≡ some (m nil_map))
      → (with_current_date r key v h).0 ≡ panic
      → Ending h r key v
  refuses :
      ¬ IsDate v
      → (with_current_date r key v h).0
        ≡ value (nil_map, some (text "withCurrentDate: Cannot handle that type"))
      → ((b : ℕ)
          → b < h.next
          → (k : String) → (with_current_date r key v h).1.maps b k ≡ h.maps b k)
      → Ending h r key v
  dates :
      IsDate v
      → r ≢ nil_map
      → entry h r current_date ≢ some (m nil_map)
      → (with_current_date r key v h).0 ≡ value (r, none)
      → Ending h r key v

put_current_date_panics :
    (h : Heap) (r : Ref) (key : String) {v : Val}
    → IsDate v
    → (put_current_date r nil_map key v h).0 ≡ panic
unfolding put_current_date
put_current_date_panics h r key (flag b) = refl
put_current_date_panics h r key (map q) = refl

put_current_date-nil_map :
    (h : Heap) (d : Ref) (key : String) {v : Val}
    → IsDate v
    → (put_current_date nil_map d key v h).0 ≡ panic
unfolding put_current_date
put_current_date-nil_map h nil_map key (flag b) = refl
put_current_date-nil_map h nil_map key (map q) = refl
put_current_date-nil_map h (at c) key (flag b) = refl
put_current_date-nil_map h (at c) key (map q) = refl

put_current_date_returns :
    (h : Heap) (a c : ℕ) (key : String) {v : Val}
    → IsDate v
    → (put_current_date (at a) (at c) key v h).0 ≡ value (at a, none)
unfolding put_current_date
put_current_date_returns h a c key (flag b) = refl
put_current_date_returns h a c key (map q) = refl

at_ending :
    (h : Heap) (a : ℕ) (key : String) {v : Val} (o : Option Val)
    → entry h (at a) current_date ≡ o
    → IsDate v
    → Ending h (at a) key v
unfolding with_current_date current_date_of
at_ending h a key (some (m nil_map)) e ok =
    panicked ok (inr e) (rw e (put_current_date_panics h (at a) key ok))
at_ending h a key (some (m (at c))) e ok =
    dates ok (λ n. cc) (λ n. cc) (rw e (put_current_date_returns h a c key ok))
at_ending h a key (some (bool b)) e ok =
    dates ok (λ n. cc) (λ n. cc) (rw e (put_current_date_returns _ a h.next key ok))
at_ending h a key (some (str t)) e ok =
    dates ok (λ n. cc) (λ n. cc) (rw e (put_current_date_returns _ a h.next key ok))
at_ending h a key (some (timestamp t i)) e ok =
    dates ok (λ n. cc) (λ n. cc) (rw e (put_current_date_returns _ a h.next key ok))
at_ending h a key (some (other n)) e ok =
    dates ok (λ n. cc) (λ n. cc) (rw e (put_current_date_returns _ a h.next key ok))
at_ending h a key none e ok =
    dates ok (λ n. cc) (λ n. cc) (rw e (put_current_date_returns _ a h.next key ok))

date_ending : (h : Heap) (r : Ref) (key : String) {v : Val} → IsDate v → Ending h r key v
unfolding with_current_date current_date_of
date_ending h nil_map key ok =
    panicked ok (inl refl) (put_current_date-nil_map (make h).1 (at h.next) key ok)
date_ending h (at a) key ok = at_ending h a key (entry h (at a) current_date) refl ok

-- `withCurrentDate` panics with a value that it takes (a `bool` or a `bson.M`) if the document is a
-- nil map or its "$currentDate" is one, and otherwise returns the document and no error. With a value
-- of any other type it returns a nil map and an error, and changes no map that was in use.
pub with_current_date-Ending : (h : Heap) (r : Ref) (key : String) (v : Val) → Ending h r key v
unfolding with_current_date
with_current_date-Ending h r key (bool b) = date_ending h r key (flag b)
with_current_date-Ending h r key (m q) = date_ending h r key (map q)
with_current_date-Ending h r key (str t) =
    let (e, same) = refused h (entry h r current_date) _ in refuses (λ ok. elim ok [ ]) e same
with_current_date-Ending h r key (timestamp t i) =
    let (e, same) = refused h (entry h r current_date) _ in refuses (λ ok. elim ok [ ]) e same
with_current_date-Ending h r key (other n) =
    let (e, same) = refused h (entry h r current_date) _ in refuses (λ ok. elim ok [ ]) e same
