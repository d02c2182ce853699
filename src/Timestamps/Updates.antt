-- ===== src/Timestamps/Updates.antt =====
-- The functions that callers use, on a document.
use dp_mongodb.Base.{
  ℕ, suc, ◌≤◌, ◌<◌, ◌≡◌, refl, ap, ◌∙◌, ◌≢◌, String, ◌<>◌, true, none, some, arith, if◌then◌else◌,
  List, [], ◌∷◌, ◌++◌, length,
}
use dp_mongodb.Base.Text.{str_eq}
use dp_mongodb.Timestamps.Heap.{at, Val, bool, m, str, Heap, value, write, make, ◌>>=◌}
use dp_mongodb.Timestamps.{
  last_updated_key, unique_timestamp_key, with_current_date, type_timestamp, with_updates,
  with_namespaced_last_updated_update, with_namespaced_unique_timestamp_update,
  with_namespaced_updates,
}
use dp_mongodb.Timestamps.Laws.{
  date_of, IsDoc, undated, dated, flag, map, Stamps, Stamps-trans, with_current_date-Stamps,
}

-- `bson.M{"$type": "timestamp"}` at `t`, which is neither the document at `a` nor its "$currentDate".
pub record IsTyped (h : Heap) (a t : ℕ) : Type 0 where
  pub used : t < h.next
  pub not_doc : t ≢ a
  pub not_date : date_of h a ≢ some (at t)
  pub typed :
      (k : String) → h.maps t k ≡ (if str_eq "$type" k then some (str "timestamp") else none)

IsTyped-Stamps :
    {h h' : Heap} {a t : ℕ} {es : List (String × Val)}
    → Stamps h h' a es
    → IsTyped h a t
    → IsTyped h' a t
IsTyped-Stamps {t} p x = record {
  used = omega arith;
  not_doc = x.not_doc;
  not_date = p.apart t x.used x.not_date;
  typed = λ k. p.frame t x.used x.not_doc x.not_date k ∙ x.typed k;
}

-- The heap after `type_timestamp`.
abbrev with_type : Heap → Heap
with_type h = write (make h).1 h.next "$type" (str "timestamp")

with_type-Stamps : (h : Heap) (a : ℕ) → IsDoc h a → Stamps h (with_type h) a []
with_type-Stamps h a (undated ua d) = record {
  is_doc = undated (omega arith) (ground arith);
  date = λ k. ground arith;
  rest = λ k e. ground arith;
  frame = λ b u e f k. ground arith;
  apart = λ b u e f. absurd (ground arith);
  grows = omega arith;
}
with_type-Stamps h a (dated c ua uc n d) = record {
  is_doc = dated c (omega arith) (omega arith) n (ground arith);
  date = λ k. ground arith;
  rest = λ k e. ground arith;
  frame = λ b u e f k. ground arith;
  apart = λ b u e f. e (ground arith);
  grows = omega arith;
}

with_type-IsTyped : (h : Heap) (a : ℕ) → IsDoc h a → IsTyped (with_type h) a h.next
with_type-IsTyped h a (undated ua d) = record {
  used = omega arith;
  not_doc = omega arith;
  not_date = λ f. ground arith;
  typed = λ k. ground arith;
}
with_type-IsTyped h a (dated c ua uc n d) = record {
  used = omega arith;
  not_doc = omega arith;
  not_date = λ f. ground arith;
  typed = λ k. ground arith;
}

-- One unique timestamp under a key.
unique-Stamps :
    (h : Heap) (a : ℕ) (key : String)
    → IsDoc h a
    → (h' : Heap) × (t : ℕ) × ((type_timestamp >>= λ r. with_current_date (at a) key (m r)) h
        ≡ (value (at a, none), h'))
      × Stamps h h' a ((key, m (at t)) ∷ [])
      × IsTyped h' a t
      × (h.next ≤ t)
unfolding type_timestamp
unique-Stamps h a key doc =
    let p = with_type-Stamps h a doc in
    let (h', run, q) =
      with_current_date-Stamps (with_type h) a key (m (at h.next)) p.is_doc (map _) in
    (
      h',
      h.next,
      run,
      Stamps-trans [] _ p q,
      IsTyped-Stamps q (with_type-IsTyped h a doc),
      omega arith,
    )

pub with_updates-Stamps :
    (h : Heap) (a : ℕ)
    → IsDoc h a
    → (h' : Heap) × (t : ℕ) × (with_updates (at a) h ≡ (value (at a, none), h'))
      × Stamps h h' a ((unique_timestamp_key, m (at t)) ∷ (last_updated_key, bool true) ∷ [])
      × IsTyped h' a t
      × (h.next ≤ t)
unfolding with_updates
with_updates-Stamps h a doc =
    let (h₁, run₁, p) = with_current_date-Stamps h a last_updated_key (bool true) doc (flag true) in
    let (h₂, t, run₂, q, typed, fresh) = unique-Stamps h₁ a unique_timestamp_key p.is_doc in
    (h₂, t, rw run₁ run₂, Stamps-trans _ _ p q, typed, omega arith)

-- The entries that a list of prefixes gets under a key, the last one first.
abbrev pub prefixed : String → List String → List Val → List (String × Val)
prefixed key [] vs = []
prefixed key (p ∷ ps) [] = []
prefixed key (p ∷ ps) (v ∷ vs) = prefixed key ps vs ++ ((p <> key, v) ∷ [])

abbrev pub flags : List String → List Val
flags [] = []
flags (p ∷ ps) = bool true ∷ flags ps

abbrev pub refs : List ℕ → List Val
refs [] = []
refs (t ∷ ts) = m (at t) ∷ refs ts

abbrev pub AllTyped : Heap → ℕ → List ℕ → Type 0
AllTyped h a [] = Unit {0}
AllTyped h a (t ∷ ts) = IsTyped h a t × AllTyped h a ts

Stamps-refl : (h : Heap) (a : ℕ) → IsDoc h a → Stamps h h a []
Stamps-refl h a doc = record {
  is_doc = doc;
  date = λ k. refl;
  rest = λ k e. refl;
  frame = λ b u e f k. refl;
  apart = λ b u e. e;
  grows = omega arith;
}

AllTyped-Stamps :
    {h h' : Heap} {a : ℕ} {es : List (String × Val)} (ts : List ℕ)
    → Stamps h h' a es
    → AllTyped h a ts
    → AllTyped h' a ts
AllTyped-Stamps [] p x = tt
AllTyped-Stamps (t ∷ ts) p x = (IsTyped-Stamps p x.0, AllTyped-Stamps ts p x.1)

pub last_updated-Stamps :
    (h : Heap) (a : ℕ) (prefixes : List String)
    → IsDoc h a
    → (h' : Heap) × (with_namespaced_last_updated_update (at a) prefixes h
        ≡ (value (at a, none), h'))
      × Stamps h h' a (prefixed last_updated_key prefixes (flags prefixes))
unfolding with_namespaced_last_updated_update
last_updated-Stamps h a [] doc = (h, refl, Stamps-refl h a doc)
last_updated-Stamps h a (prefix ∷ prefixes) doc =
    let (h₁, run₁, p) =
      with_current_date-Stamps h a (prefix <> last_updated_key) (bool true) doc (flag true) in
    let (h₂, run₂, q) = last_updated-Stamps h₁ a prefixes p.is_doc in
    (h₂, rw run₁ run₂, Stamps-trans _ _ p q)

pub unique_timestamp-Stamps :
    (h : Heap) (a : ℕ) (prefixes : List String)
    → IsDoc h a
    → (h' : Heap) × (ts : List ℕ) × (with_namespaced_unique_timestamp_update (at a) prefixes h
        ≡ (value (at a, none), h'))
      × Stamps h h' a (prefixed unique_timestamp_key prefixes (refs ts))
      × AllTyped h' a ts
      × (length ts ≡ length prefixes)
unfolding with_namespaced_unique_timestamp_update
unique_timestamp-Stamps h a [] doc = (h, [], refl, Stamps-refl h a doc, tt, refl)
unique_timestamp-Stamps h a (prefix ∷ prefixes) doc =
    let (h₁, t, run₁, p, typed, fresh) = unique-Stamps h a (prefix <> unique_timestamp_key) doc in
    let (h₂, ts, run₂, q, others, same) = unique_timestamp-Stamps h₁ a prefixes p.is_doc in
    (h₂, t ∷ ts, rw run₁ run₂, Stamps-trans _ _ p q, (IsTyped-Stamps q typed, others), ap suc same)

pub with_namespaced_updates-Stamps :
    (h : Heap) (a : ℕ) (prefixes : List String)
    → IsDoc h a
    → (h' : Heap) × (ts : List ℕ) × (with_namespaced_updates (at a) prefixes h
        ≡ (value (at a, none), h'))
      × Stamps h h' a (
          prefixed unique_timestamp_key prefixes (refs ts)
          ++ prefixed last_updated_key prefixes (flags prefixes))
      × AllTyped h' a ts
      × (length ts ≡ length prefixes)
unfolding with_namespaced_updates
with_namespaced_updates-Stamps h a prefixes doc =
    let (h₁, run₁, p) = last_updated-Stamps h a prefixes doc in
    let (h₂, ts, run₂, q, typed, same) = unique_timestamp-Stamps h₁ a prefixes p.is_doc in
    (h₂, ts, rw run₁ run₂, Stamps-trans _ _ p q, typed, same)
