-- ===== src/Timestamps/Laws.antt =====
-- What `withCurrentDate` does to the heap, in terms of the document and of its "$currentDate".
use mathlib.Core.Option.{some-injective}
use text.Mathlib.TextEquality.{eq_iff}
use dp_mongodb.Base.{
  ℕ, ◌≤◌, ◌<◌, ◌≡◌, refl, ap, sym, ◌∙◌, ◌≢◌, String, Bool, Option, none, some, arith, if◌then◌else◌,
  List, [], ◌∷◌, ◌++◌,
}
use dp_mongodb.Base.Text.{str_eq}
use dp_mongodb.Timestamps.Heap.{
  Ref, at, Val, bool, m, Heap, value, pure, str, timestamp, other, entry, write, make,
}
use dp_mongodb.Timestamps.{current_date, with_current_date, current_date_of, put_current_date}

-- The map that a value is, if it is one.
abbrev pub ref_of : Option Val → Option Ref
ref_of (some (m r)) = some r
ref_of _ = none

-- An entry of the map that may be missing.
abbrev pub entry_of : Heap → Option Ref → String → Option Val
entry_of h none k = none
entry_of h (some r) k = entry h r k

-- An entry of a document's "$currentDate".
abbrev pub date_entry : Heap → ℕ → String → Option Val
date_entry h a k = entry_of h (ref_of (h.maps a current_date)) k

-- The address of a document's "$currentDate", where it is a map.
abbrev pub date_of : Heap → ℕ → Option Ref
date_of h a = ref_of (h.maps a current_date)

-- A map in use, whose "$currentDate" is no map, or another map in use, and no nil map.
pub data IsDoc (h : Heap) (a : ℕ) : Type 0 where
  undated : a < h.next → date_of h a ≡ none → IsDoc h a
  dated : (c : ℕ) → a < h.next → c < h.next → c ≢ a → date_of h a ≡ some (at c) → IsDoc h a

-- The values that `withCurrentDate` takes.
pub data IsDate : Val → Type 0 where
  flag : (b : Bool) → IsDate (bool b)
  map : (r : Ref) → IsDate (m r)

-- The entries of "$currentDate" after some assignments, the last one first.
abbrev pub assigned : List (String × Val) → String → Option Val → Option Val
assigned [] k old = old
assigned ((j, v) ∷ es) k old = if str_eq j k then some v else assigned es k old

-- From `h` to `h'` the document at `a` has got some entries in its "$currentDate", and nothing else
-- that was in use has changed.
pub record Stamps (h h' : Heap) (a : ℕ) (es : List (String × Val)) : Type 0 where
  pub is_doc : IsDoc h' a
  pub date : (k : String) → date_entry h' a k ≡ assigned es k (date_entry h a k)
  pub rest : (k : String) → k ≢ current_date → h'.maps a k ≡ h.maps a k
  pub frame :
      (b : ℕ)
      → b < h.next
      → b ≢ a
      → date_of h a ≢ some (at b)
      → (k : String) → h'.maps b k ≡ h.maps b k
  pub apart : (b : ℕ) → b < h.next → date_of h a ≢ some (at b) → date_of h' a ≢ some (at b)
  pub grows : h.next ≤ h'.next

pub assigned-append :
    (es es' : List (String × Val)) (k : String) (old : Option Val)
    → assigned (es ++ es') k old ≡ assigned es k (assigned es' k old)
assigned-append [] es' k old = refl
assigned-append ((j, v) ∷ es) es' k old = ground (arith, assigned-append es es' k old)

pub Stamps-trans :
    {h h' h'' : Heap} {a : ℕ} (es es' : List (String × Val))
    → Stamps h h' a es
    → Stamps h' h'' a es'
    → Stamps h h'' a (es' ++ es)
Stamps-trans es es' p q = record {
  is_doc = q.is_doc;
  date = λ k. q.date k ∙ ap (assigned es' k) (p.date k) ∙ sym (assigned-append es' es k _);
  rest = λ k n. q.rest k n ∙ p.rest k n;
  frame = λ b u n d k. q.frame b (omega arith) n (p.apart b u d) k ∙ p.frame b u n d k;
  apart = λ b u d. q.apart b (omega arith) (p.apart b u d);
  grows = omega arith;
}

-- The heap after the two assignments of `withCurrentDate`.
abbrev stamped : Heap → ℕ → ℕ → String → Val → Heap
stamped h a c key v = write (write h c key v) a current_date (m (at c))

stamped-Stamps :
    (h : Heap) (a c : ℕ) (key : String) (v : Val)
    → a < h.next
    → c < h.next
    → c ≢ a
    → date_of h a ≡ some (at c)
    → Stamps h (stamped h a c key v) a ((key, v) ∷ [])
stamped-Stamps h a c key v ua uc n d = record {
  is_doc = dated c ua uc n (ground arith);
  date = λ k. ground arith;
  rest = λ k e. ground (arith, eq_iff current_date k);
  frame = λ b u e f k. ground arith;
  apart = λ b u e f. e (ground arith);
  grows = omega arith;
}

-- The same after a new map has been made.
fresh-Stamps :
    (h : Heap) (a : ℕ) (key : String) (v : Val)
    → a < h.next
    → date_of h a ≡ none
    → Stamps h (stamped (make h).1 a h.next key v) a ((key, v) ∷ [])
fresh-Stamps h a key v ua d = record {
  is_doc = dated h.next (omega arith) (omega arith) (omega arith) (ground arith);
  date = λ k. ground arith;
  rest = λ k e. ground (arith, eq_iff current_date k);
  frame = λ b u e f k. ground arith;
  apart = λ b u e f. absurd (ground arith);
  grows = omega arith;
}

current_date_of-dated : (o : Option Val) {r : Ref} → ref_of o ≡ some r → current_date_of o ≡ pure r
unfolding current_date_of
current_date_of-dated (some (m r)) e = ap pure (some-injective _ _ e)
current_date_of-dated _ e = cc

current_date_of-undated : (o : Option Val) → ref_of o ≡ none → current_date_of o ≡ make
unfolding current_date_of
current_date_of-undated (some (m r)) e = cc
current_date_of-undated _ e = refl

put_current_date_lem :
    (h : Heap) (a c : ℕ) (key : String) (v : Val)
    → IsDate v
    → put_current_date (at a) (at c) key v h ≡ (value (at a, none), stamped h a c key v)
unfolding put_current_date
put_current_date_lem h a c key (bool b) ok = refl
put_current_date_lem h a c key (m r) ok = refl
put_current_date_lem h a c key (str t) ok = elim ok [ ]
put_current_date_lem h a c key (timestamp t i) ok = elim ok [ ]
put_current_date_lem h a c key (other n) ok = elim ok [ ]

-- `withCurrentDate` on a document, with a value that it takes: it returns the document and no error,
-- puts the value in the document's "$currentDate", which it makes if there is none, keeps the other
-- entries there, and changes nothing else that was in use.
pub with_current_date-Stamps :
    (h : Heap) (a : ℕ) (key : String) (v : Val)
    → IsDoc h a
    → IsDate v
    → (h' : Heap) × (with_current_date (at a) key v h ≡ (value (at a, none), h'))
      × Stamps h h' a ((key, v) ∷ [])
unfolding with_current_date
with_current_date-Stamps h a key v (dated c ua uc n d) ok = (
  stamped h a c key v,
  rw (current_date_of-dated _ d) (put_current_date_lem h a c key v ok),
  stamped-Stamps h a c key v ua uc n d,
)
with_current_date-Stamps h a key v (undated ua d) ok = (
  stamped (make h).1 a h.next key v,
  rw (current_date_of-undated _ d) (put_current_date_lem (make h).1 a h.next key v ok),
  fresh-Stamps h a key v ua d,
)
