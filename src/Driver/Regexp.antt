-- ===== src/Driver/Regexp.antt =====
-- Go's `regexp.MatchString` for an expression that is anchored at both ends, by derivatives, and the
-- language of an expression.
use dp_mongodb.Base.{
  ℕ, ◌≡◌, refl, sym, ap, ◌∙◌, ◌⊎◌, inl, inr, Bool, true, false, ◌&&◌, ◌||◌, List, [], ◌∷◌, ◌++◌,
  arith, Bool-cases, if◌then◌else◌,
}

pub data Regex : Type 0 where
  nothing : Regex
  empty : Regex
  -- one code point that passes a test
  class : (ℕ → Bool) → Regex
  seq : Regex → Regex → Regex
  alt : Regex → Regex → Regex
  star : Regex → Regex

abbrev pub opt : Regex → Regex
opt r = alt r empty

abbrev pub plus : Regex → Regex
plus r = seq r (star r)

unfoldable pub nullable : Regex → Bool
nullable nothing = false
nullable empty = true
nullable (class p) = false
nullable (seq r s) = nullable r && nullable s
nullable (alt r s) = nullable r || nullable s
nullable (star r) = true

unfoldable pub derive : ℕ → Regex → Regex
unfolding nullable
derive c nothing = nothing
derive c empty = nothing
derive c (class p) = if p c then empty else nothing
derive c (seq r s) = let d = seq (derive c r) s in if nullable r then alt d (derive c s) else d
derive c (alt r s) = alt (derive c r) (derive c s)
derive c (star r) = seq (derive c r) (star r)

unfoldable pub matches : Regex → List ℕ → Bool
unfolding nullable derive
matches r [] = nullable r
matches r (c ∷ cs) = matches (derive c r) cs

-- The texts of an expression.
pub data Matches : Regex → List ℕ → Type 0 where
  empty_ : {t : List ℕ} → t ≡ [] → Matches empty t
  class_ : {p : ℕ → Bool} {t : List ℕ} (c : ℕ) → p c ≡ true → t ≡ c ∷ [] → Matches (class p) t
  seq_ :
      {r s : Regex} {t : List ℕ} (u v : List ℕ)
      → Matches r u
      → Matches s v
      → t ≡ u ++ v
      → Matches (seq r s) t
  left : {r s : Regex} {t : List ℕ} → Matches r t → Matches (alt r s) t
  right : {r s : Regex} {t : List ℕ} → Matches s t → Matches (alt r s) t
  done : {r : Regex} {t : List ℕ} → t ≡ [] → Matches (star r) t
  more :
      {r : Regex} {t : List ℕ} (u v : List ℕ)
      → Matches r u
      → Matches (star r) v
      → t ≡ u ++ v
      → Matches (star r) t

nullable-Matches : (r : Regex) → nullable r ≡ true → Matches r []
unfolding nullable
nullable-Matches nothing h = cc
nullable-Matches empty h = empty_ refl
nullable-Matches (class p) h = cc
nullable-Matches (seq r s) h =
    seq_ [] [] (nullable-Matches r (ground arith)) (nullable-Matches s (ground arith)) refl
nullable-Matches (alt r s) h = elim (Bool-cases (nullable r)) [
  | inl e ↦ left (nullable-Matches r e)
  | inr e ↦ right (nullable-Matches s (ground arith))
]
nullable-Matches (star r) h = done refl

empty-inv : {t : List ℕ} → Matches empty t → t ≡ []
empty-inv (empty_ e) = e

nothing-inv : {t : List ℕ} → Matches nothing t → ⊥
nothing-inv m = elim m [ ]

pub class-inv :
    {p : ℕ → Bool} {t : List ℕ} → Matches (class p) t → (c : ℕ) × (p c ≡ true) × (t ≡ c ∷ [])
class-inv (class_ c h e) = (c, h, e)

pub seq-inv :
    {r s : Regex} {t : List ℕ}
    → Matches (seq r s) t
    → (u v : List ℕ) × Matches r u × Matches s v × (t ≡ u ++ v)
seq-inv (seq_ u v a b e) = (u, v, a, b, e)

alt-inv : {r s : Regex} {t : List ℕ} → Matches (alt r s) t → Matches r t ⊎ Matches s t
alt-inv (left m) = inl m
alt-inv (right m) = inr m

pub opt-inv : {r : Regex} {t : List ℕ} → Matches (opt r) t → Matches r t ⊎ (t ≡ [])
opt-inv (left m) = inl m
opt-inv (right m) = inr (empty-inv m)

seq_first :
    (c : ℕ) (r s : Regex) (t : List ℕ)
    → ((u : List ℕ) → Matches (derive c r) u → Matches r (c ∷ u))
    → Matches (seq (derive c r) s) t
    → Matches (seq r s) (c ∷ t)
seq_first c r s t back n =
    let (u, v, a, b, e) = seq-inv n in seq_ (c ∷ u) v (back u a) b (ap (◌∷◌ c) e)

-- A derivative has no other texts than those that go on after the code point.
derive-Matches : (c : ℕ) (r : Regex) (t : List ℕ) → Matches (derive c r) t → Matches r (c ∷ t)
unfolding derive
derive-Matches c nothing t m = elim m [ ]
derive-Matches c empty t m = elim m [ ]
derive-Matches c (class p) t m = elim (Bool-cases (p c)) [
  | inl e ↦ class_ c e (ap (◌∷◌ c) (empty-inv (rw e at m)))
  | inr e ↦ absurd (nothing-inv (rw e at m))
]
derive-Matches c (seq r s) t m = elim (Bool-cases (nullable r)) [
  | inl e ↦ elim (alt-inv (rw e at m)) [
    | inl n ↦ seq_first c r s t (λ u a. derive-Matches c r u a) n
    | inr n ↦ seq_ [] (c ∷ t) (nullable-Matches r e) (derive-Matches c s t n) refl
  ]
  | inr e ↦ seq_first c r s t (λ u a. derive-Matches c r u a) (rw e at m)
]
derive-Matches c (alt r s) t m = elim (alt-inv m) [
  | inl n ↦ left (derive-Matches c r t n)
  | inr n ↦ right (derive-Matches c s t n)
]
derive-Matches c (star r) t m =
    let (u, v, a, b, e) = seq-inv m in more (c ∷ u) v (derive-Matches c r u a) b (ap (◌∷◌ c) e)

-- What `matches` accepts is a text of the expression.
pub matches_sound : (r : Regex) (t : List ℕ) → matches r t ≡ true → Matches r t
unfolding matches
matches_sound r [] h = nullable-Matches r h
matches_sound r (c ∷ t) h = derive-Matches c r t (matches_sound (derive c r) t h)

append-nil_parts : (u v : List ℕ) → u ++ v ≡ [] → (u ≡ []) × (v ≡ [])
append-nil_parts [] v e = (refl, e)
append-nil_parts (x ∷ u) v e = cc

nullable_complete : {r : Regex} {t : List ℕ} → Matches r t → t ≡ [] → nullable r ≡ true
unfolding nullable
nullable_complete (empty_ e) q = refl
nullable_complete (class_ c h e) q = cc
nullable_complete (seq_ u v a b e) q =
    let (eu, ev) = append-nil_parts u v (sym e ∙ q) in
    ground (arith, nullable_complete a eu, nullable_complete b ev)
nullable_complete (left m) q = ground (arith, nullable_complete m q)
nullable_complete (right m) q = ground (arith, nullable_complete m q)
nullable_complete (done e) q = refl
nullable_complete (more u v a b e) q = refl

cons_parts :
    (u v : List ℕ) (c : ℕ) (t : List ℕ)
    → u ++ v ≡ c ∷ t
    → ((u ≡ []) × (v ≡ c ∷ t)) ⊎ ((u' : List ℕ) × (u ≡ c ∷ u') × (t ≡ u' ++ v))
cons_parts [] v c t e = inl (refl, e)
cons_parts (x ∷ u) v c t e = inr (u, cc, cc)

derive_complete :
    {r : Regex} {t' : List ℕ} (c : ℕ) (t : List ℕ)
    → Matches r t'
    → t' ≡ c ∷ t
    → Matches (derive c r) t
unfolding derive
derive_complete c t (empty_ e) q = absurd (cc)
derive_complete c t (class_ {p = p} x h e) q =
    let same : x ≡ c = cc in
    let rest : t ≡ [] = cc in let passes : p c ≡ true = rw (← same) h in rw passes (empty_ rest)
derive_complete c t (seq_ {r = r} {s = s} u v a b e) q = elim (cons_parts u v c t (sym e ∙ q)) [
  | inl (eu, ev) ↦ rw (nullable_complete a eu) (right (derive_complete c t b ev))
  | inr (u', eu, et) ↦ elim (Bool-cases (nullable r)) [
    | inl n ↦ rw n (left (seq_ u' v (derive_complete c u' a eu) b et))
    | inr n ↦ rw n (seq_ u' v (derive_complete c u' a eu) b et)
  ]
]
derive_complete c t (left m) q = left (derive_complete c t m q)
derive_complete c t (right m) q = right (derive_complete c t m q)
derive_complete c t (done e) q = absurd (cc)
derive_complete c t (more u v a b e) q = elim (cons_parts u v c t (sym e ∙ q)) [
  | inl (eu, ev) ↦ derive_complete c t b ev
  | inr (u', eu, et) ↦ seq_ u' v (derive_complete c u' a eu) b et
]

-- And `matches` accepts every text of the expression.
pub matches_complete : (r : Regex) (t : List ℕ) → Matches r t → matches r t ≡ true
unfolding matches
matches_complete r [] m = nullable_complete m refl
matches_complete r (c ∷ t) m = matches_complete (derive c r) t (derive_complete c t m refl)
