-- ===== src/TestComponent/Phrases/Writing.antt =====
-- Texts that a pattern matches: its characters, and texts for its groups.
use Prim.Native.Char.{code}
use text.Mathlib.TextLemmas.{nil-append, cons-append}
use dp_mongodb.Base.{
  ◌≡◌, ◌∙◌, refl, ap, String, ◌<>◌, Bool, true, false, not, ◌&&◌, ◌||◌, some, List, [], ◌∷◌, arith,
}
use dp_mongodb.TestComponent.Phrases.{
  Class, in_class, may_be_empty, Part, char, many, without_or_with, is_empty, span, captures,
}

-- All characters are in the class.
abbrev pub all_in : Class → String → Bool
all_in k String.[] = true
all_in k (String.◌∷◌ c s) = in_class k (code c) && all_in k s

-- The group takes the text as a whole.
abbrev pub is_whole : Class → String → Bool
is_whole k u = all_in k u && (may_be_empty k || not (is_empty u))

-- No character of the class follows.
abbrev pub is_over : Class → List Part → Bool
is_over k [] = true
is_over k (char c ∷ ps) = not (in_class k (code c))
is_over k _ = false

abbrev pub print : List Part → List String → String
print [] us = ""
print (char c ∷ ps) us = String.◌∷◌ c (print ps us)
print (_ ∷ ps) [] = ""
print (_ ∷ ps) (u ∷ us) = u <> print ps us

-- The texts fit the groups.
abbrev pub Fits : List Part → List String → Type 0
Fits [] [] = Unit {0}
Fits [] (u ∷ us) = ⊥
Fits (char c ∷ ps) us = Fits ps us
Fits (many k ∷ ps) (u ∷ us) = (is_whole k u ≡ true) × (is_over k ps ≡ true) × Fits ps us
Fits (many k ∷ ps) [] = ⊥
Fits (without_or_with ∷ ps) us = ⊥

span-over :
    (k : Class) (ps : List Part) (us : List String)
    → is_over k ps ≡ true
    → span k (print ps us) ≡ ("", print ps us)
unfolding span
span-over k [] us h = refl
span-over k (char c ∷ ps) us h = ground arith
span-over k (many l ∷ ps) us h = cc
span-over k (without_or_with ∷ ps) us h = cc

span-append :
    (k : Class) (u v : String) → all_in k u ≡ true → span k v ≡ ("", v) → span k (u <> v) ≡ (u, v)
unfolding span
span-append k String.[] v h e = ap (span k) (nil-append v) ∙ e
span-append k (String.◌∷◌ c u) v h e =
    ap (span k) (cons-append c u v) ∙ ground (arith, span-append k u v (ground arith) e)

-- The groups of the printed text are the texts that it was printed with.
pub captures-print :
    (ps : List Part) (to_the_end : Bool) (us : List String)
    → Fits ps us
    → captures ps to_the_end (print ps us) ≡ some us
unfolding captures
captures-print [] to_the_end [] f = ground arith
captures-print [] to_the_end (u ∷ us) f = elim f [ ]
captures-print (char c ∷ ps) to_the_end us f = ground (arith, captures-print ps to_the_end us f)
captures-print (many k ∷ ps) to_the_end [] f = elim f [ ]
captures-print (many k ∷ ps) to_the_end (u ∷ us) f =
    let e = span-append k u (print ps us) (ground arith) (span-over k ps us f.1) in
    rw (e, captures) (ground (arith, captures-print ps to_the_end us f.2))
captures-print (without_or_with ∷ ps) to_the_end us f = elim f [ ]
