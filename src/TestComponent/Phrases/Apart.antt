-- ===== src/TestComponent/Phrases/Apart.antt =====
-- A test by which two patterns match no common text.
use Prim.Native.Char.{Char, code}
use dp_mongodb.Base.{
  ◌≡◌, refl, ap, sym, String, Bool, true, false, not, ◌&&◌, List, [], ◌∷◌, ◌==◌, arith,
  if◌then◌else◌, inl, inr, Bool-cases,
}
use dp_mongodb.TestComponent.Phrases.{
  Class, digits, word, unquoted, in_class, may_be_empty, Part, char, many, without_or_with, span,
  captures, is_match,
}

abbrev same_class : Class → Class → Bool
same_class digits digits = true
same_class word word = true
same_class unquoted unquoted = true
same_class _ _ = false

-- The parts are followed in parallel, up to a place where no character fits both.
unfoldable pub apart : List Part → Bool → List Part → Bool → Bool
apart (char c ∷ ps) a (char d ∷ qs) b =
    let rest = apart ps a qs b in if code c == code d then rest else true
apart (many k ∷ ps) a (char d ∷ qs) b = not (may_be_empty k) && not (in_class k (code d))
apart (char c ∷ ps) a (many k ∷ qs) b = not (may_be_empty k) && not (in_class k (code c))
apart (many k ∷ ps) a (many l ∷ qs) b = same_class k l && apart ps a qs b
apart [] a (char d ∷ qs) b = a
apart (char c ∷ ps) a [] b = b
apart _ a _ b = false

same_class-eq : (k l : Class) → same_class k l ≡ true → k ≡ l
same_class-eq digits digits h = refl
same_class-eq digits word h = cc
same_class-eq digits unquoted h = cc
same_class-eq word digits h = cc
same_class-eq word word h = refl
same_class-eq word unquoted h = cc
same_class-eq unquoted digits h = cc
same_class-eq unquoted word h = cc
same_class-eq unquoted unquoted h = refl

module _ (a : Bool) (ps : List Part) where
  char_first :
      (c e : Char) (t : String)
      → is_match (captures (char c ∷ ps) a (String.◌∷◌ e t)) ≡ true
      → code c ≡ code e
  unfolding captures
  char_first c e t m = ground arith

  many_first :
      (k : Class) (e : Char) (t : String)
      → is_match (captures (many k ∷ ps) a (String.◌∷◌ e t)) ≡ true
      → not (may_be_empty k) ≡ true
      → in_class k (code e) ≡ true
  unfolding captures span
  many_first k e t m n = elim (Bool-cases (in_class k (code e))) [
    | inl h ↦ h
    | inr h ↦ absurd (cc (rw (h, n, span) at m))
  ]

  many_rest :
      (k : Class) (t : String)
      → is_match (captures (many k ∷ ps) a t) ≡ true
      → is_match (captures ps a (span k t).1) ≡ true
  unfolding captures
  many_rest k t m = ground arith

pub apart_sound :
    (ps : List Part) (a : Bool) (qs : List Part) (b : Bool) (t : String)
    → apart ps a qs b ≡ true
    → is_match (captures ps a t) ≡ true
    → is_match (captures qs b t) ≡ true
    → ⊥
unfolding apart captures span
apart_sound (char c ∷ ps) a (char d ∷ qs) b String.[] h m n = cc
apart_sound (char c ∷ ps) a (char d ∷ qs) b (String.◌∷◌ e t) h m n =
    ground (arith, apart_sound ps a qs b t)
apart_sound (many k ∷ ps) a (char d ∷ qs) b String.[] h m n = cc
apart_sound (many k ∷ ps) a (char d ∷ qs) b (String.◌∷◌ e t) h m n =
    ground (arith, many_first a ps k e t m, ap (in_class k) (char_first b qs d e t n))
apart_sound (char c ∷ ps) a (many k ∷ qs) b String.[] h m n = cc
apart_sound (char c ∷ ps) a (many k ∷ qs) b (String.◌∷◌ e t) h m n =
    ground (arith, many_first b qs k e t n, ap (in_class k) (char_first a ps c e t m))
apart_sound (many k ∷ ps) a (many l ∷ qs) b t h m n =
    let e : k ≡ l = same_class-eq k l (ground arith) in
    apart_sound ps a qs b (span k t).1 (ground arith) (many_rest a ps k t m)
      (many_rest b qs k t (rw (sym e) at n))
apart_sound [] a (char d ∷ qs) b String.[] h m n = cc
apart_sound [] a (char d ∷ qs) b (String.◌∷◌ e t) h m n = ground arith
apart_sound (char c ∷ ps) a [] b String.[] h m n = cc
apart_sound (char c ∷ ps) a [] b (String.◌∷◌ e t) h m n = ground arith
apart_sound [] a [] b t h m n = cc
apart_sound [] a (many k ∷ qs) b t h m n = cc
apart_sound [] a (without_or_with ∷ qs) b t h m n = cc
apart_sound (char c ∷ ps) a (without_or_with ∷ qs) b t h m n = cc
apart_sound (many k ∷ ps) a [] b t h m n = cc
apart_sound (many k ∷ ps) a (without_or_with ∷ qs) b t h m n = cc
apart_sound (without_or_with ∷ ps) a qs b t h m n = cc
