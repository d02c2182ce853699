-- ===== src/TestComponent/Phrases/Unique.antt =====
-- No text calls two steps.
use dp_mongodb.Base.{
  ℕ, zero, suc, ◌≡◌, ◌∙◌, refl, ap, sym, String, Bool, true, ◌&&◌, some, List, [], ◌∷◌, get_elem?,
  arith, Option-cases, inl, inr,
}
use mathlib.Core.List.{Memᴰ}
use mathlib.Core.List.Memᴰ.{head, tail}
use mathlib.Core.Option.{some-injective}
use dp_mongodb.TestComponent.Phrases.{captures, is_match, matches}
use dp_mongodb.TestComponent.Phrases.Apart.{apart, apart_sound}
use dp_mongodb.TestComponent.Phrases.Reading.{Registered, registered, first_match}

apart_from : Registered → List Registered → Bool
apart_from r [] = true
apart_from r (q ∷ qs) =
    apart r.pattern.parts r.pattern.to_the_end q.pattern.parts q.pattern.to_the_end
    && apart_from r qs

all_apart : List Registered → Bool
unfolding apart_from
all_apart [] = true
all_apart (r ∷ rs) = apart_from r rs && all_apart rs

registered-apart : all_apart registered ≡ true
unfolding all_apart registered apart
registered-apart = refl

module _ (t : String) where
  abbrev Both : Registered → Registered → Type 0
  Both p q = (matches p.pattern t ≡ true) × (matches q.pattern t ≡ true)

  not-Both :
      (r : Registered) (rs : List Registered) (i : ℕ) (q : Registered)
      → apart_from r rs ≡ true
      → get_elem? rs i ≡ some q
      → ¬ Both r q
  unfolding apart_from matches
  not-Both r [] i q h e b = cc
  not-Both r (p ∷ rs) zero q h e b =
      let same : p ≡ q = cc e in
      apart_sound r.pattern.parts r.pattern.to_the_end p.pattern.parts p.pattern.to_the_end t
        (ground arith) b.0 (ap (λ x. matches x.pattern t) same ∙ b.1)
  not-Both r (p ∷ rs) (suc i) q h e b = not-Both r rs i q (ground arith) e b

  one_of_all :
      (rs : List Registered) (i j : ℕ) (p q : Registered)
      → all_apart rs ≡ true
      → get_elem? rs i ≡ some p
      → get_elem? rs j ≡ some q
      → Both p q
      → i ≡ j
  unfolding all_apart
  one_of_all [] i j p q h e f b = cc
  one_of_all (r ∷ rs) zero zero p q h e f b = refl
  one_of_all (r ∷ rs) zero (suc j) p q h e f b =
      let same : r ≡ p = cc e in
      absurd (not-Both r rs j q (ground arith) f (ap (λ x. matches x.pattern t) same ∙ b.0, b.1))
  one_of_all (r ∷ rs) (suc i) zero p q h e f b =
      let same : r ≡ q = cc f in
      absurd (not-Both r rs i p (ground arith) e (ap (λ x. matches x.pattern t) same ∙ b.1, b.0))
  one_of_all (r ∷ rs) (suc i) (suc j) p q h e f b =
      ap suc (one_of_all rs i j p q (ground arith) e f b)

  -- Two of the registered regular expressions never match the same text, so the step that a text
  -- calls does not depend on the order in which they are registered.
  pub one_step :
      (i j : ℕ) (p q : Registered)
      → get_elem? registered i ≡ some p
      → get_elem? registered j ≡ some q
      → matches p.pattern t ≡ true
      → matches q.pattern t ≡ true
      → i ≡ j
  one_step i j p q e f m n = one_of_all registered i j p q registered-apart e f (m, n)

pub get_elem?-Memᴰ :
    (rs : List Registered) (i : ℕ) {r : Registered} → get_elem? rs i ≡ some r → Memᴰ r rs
get_elem?-Memᴰ [] i e = cc
get_elem?-Memᴰ (q ∷ rs) zero e = head (cc)
get_elem?-Memᴰ (q ∷ rs) (suc i) e = tail (get_elem?-Memᴰ rs i e)

Memᴰ-get_elem? :
    (rs : List Registered) {r : Registered} → Memᴰ r rs → (i : ℕ) × (get_elem? rs i ≡ some r)
Memᴰ-get_elem? [] m = elim m [ ]
Memᴰ-get_elem? (q ∷ rs) (head e) = (0, ap some (sym e))
Memᴰ-get_elem? (q ∷ rs) (tail m) = let (i, e) = Memᴰ-get_elem? rs m in (suc i, e)

module _ (t : String) (doc : String) where
  one_matches :
      (p q : Registered)
      → Memᴰ p registered
      → Memᴰ q registered
      → matches p.pattern t ≡ true
      → matches q.pattern t ≡ true
      → p ≡ q
  one_matches p q m n h k =
      let (i, e) = Memᴰ-get_elem? registered m in
      let (j, f) = Memᴰ-get_elem? registered n in
      some-injective _ _
        (sym e ∙ ap (λ (l : ℕ). get_elem? registered l) (one_step t i j p q e f h k) ∙ f)

  head_match :
      (rs : List Registered) (q r : Registered) (us : List String)
      → q ≡ r
      → captures r.pattern.parts r.pattern.to_the_end t ≡ some us
      → first_match (q ∷ rs) t doc ≡ r.make us doc
  unfolding first_match
  head_match rs q r us same m =
      let first : first_match (r ∷ rs) t doc ≡ r.make us doc = rw (m, first_match) refl in
      ap (λ x. first_match (x ∷ rs) t doc) same ∙ first

  -- The step that matches is called, wherever in the list it stands.
  pub first_match-Memᴰ :
      (rs : List Registered) (r : Registered) (us : List String)
      → ((q : Registered) → Memᴰ q rs → Memᴰ q registered)
      → Memᴰ r rs
      → captures r.pattern.parts r.pattern.to_the_end t ≡ some us
      → first_match rs t doc ≡ r.make us doc
  unfolding first_match matches
  first_match-Memᴰ [] r us known m h = elim m [ ]
  first_match-Memᴰ (q ∷ rs) r us known (head e) h = head_match rs q r us (sym e) h
  first_match-Memᴰ (q ∷ rs) r us known (tail m) h =
      elim (Option-cases (captures q.pattern.parts q.pattern.to_the_end t)) [
        | inl n ↦ rw (n, first_match) (first_match-Memᴰ rs r us (λ p k. known p (tail k)) m h)
        | inr (vs, n) ↦
            head_match rs q r us
              (one_matches q r (known q (head refl)) (known r (tail m)) (ap is_match n)
                (ap is_match h))
              h
      ]
