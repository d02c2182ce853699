-- ===== src/TestComponent/Phrases.antt =====
-- The regular expressions of `RegisterSteps`, by which a step of a scenario is known. All are
-- anchored at the start. They are made of characters, of `(\d+)`, `(\w+)` and `([^"]*)`, and of
-- `(without|with)`. Behind a group there is either the end, or a character that is not in its class,
-- so the group takes all characters of its class; and no text goes on with ` interference` both
-- after `without` and after `with`.
pub mod Apart
pub mod Reading
pub mod Writing
pub mod Unique
pub mod Speech
pub mod Saying
use Prim.Native.Char.{Char, code}
use dp_mongodb.Base.{
  ℕ, String, ◌<>◌, Bool, true, false, not, ◌&&◌, ◌||◌, Option, none, some, List, [], ◌∷◌, ◌++◌,
  ◌==◌, leb, if◌then◌else◌,
}
use dp_mongodb.Base.Text.{codes, is_digit}

pub data Class : Type 0 where
  -- `\d` and `\w`, once or more often
  digits : Class
  word : Class
  -- `[^"]`, any number of times
  unquoted : Class

abbrev pub in_class : Class → ℕ → Bool
in_class digits c = is_digit c
in_class word c =
    is_digit c || (leb b'a' c && leb c b'z') || (leb b'A' c && leb c b'Z') || (c == b'_')
in_class unquoted c = not (c == b'"')

-- The group may match no character.
abbrev pub may_be_empty : Class → Bool
may_be_empty unquoted = true
may_be_empty _ = false

pub data Part : Type 0 where
  char : Char → Part
  many : Class → Part
  without_or_with : Part

pub record Pattern : Type 0 where
  pub parts : List Part
  -- with `$` at its end
  pub to_the_end : Bool

abbrev pub says : String → List Part → List Part
says String.[] ps = ps
says (String.◌∷◌ c s) ps = char c ∷ says s ps

abbrev pub is_empty : String → Bool
is_empty String.[] = true
is_empty (String.◌∷◌ c s) = false

-- The characters of a class that a text begins with, and the rest.
unfoldable pub span : Class → String → String × String
span k String.[] = (String.[], String.[])
span k (String.◌∷◌ c s) =
    let (u, v) = span k s in
    if in_class k (code c) then (String.◌∷◌ c u, v) else (String.[], String.◌∷◌ c s)

unfoldable pub strip : String → String → Option String
strip String.[] t = some t
strip (String.◌∷◌ c s) String.[] = none
strip (String.◌∷◌ c s) (String.◌∷◌ d t) = if code c == code d then strip s t else none

abbrev pub with_capture : String → Option (List String) → Option (List String)
with_capture u none = none
with_capture u (some us) = some (u ∷ us)

-- What the groups capture, where the text matches.
unfoldable pub captures : List Part → Bool → String → Option (List String)
unfolding span strip
captures [] to_the_end t = if to_the_end && not (is_empty t) then none else some []
captures (char c ∷ ps) to_the_end String.[] = none
captures (char c ∷ ps) to_the_end (String.◌∷◌ d t) =
    let rest = captures ps to_the_end t in if code c == code d then rest else none
captures (many k ∷ ps) to_the_end t =
    let (u, v) = span k t in
    let rest = captures ps to_the_end v in
    if is_empty u && not (may_be_empty k) then none else with_capture u rest
captures (without_or_with ∷ ps) to_the_end t = elim (strip "without" t) [
  | some v ↦ with_capture "without" (captures ps to_the_end v)
  | none ↦ elim (strip "with" t) [
    | some v ↦ with_capture "with" (captures ps to_the_end v)
    | none ↦ none
  ]
]

abbrev pub is_match : Option (List String) → Bool
is_match none = false
is_match (some us) = true

unfoldable pub matches : Pattern → String → Bool
unfolding captures
matches p t = is_match (captures p.parts p.to_the_end t)
