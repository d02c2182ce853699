-- ===== src/Base/Text.antt =====
-- Comparison of whole texts, and texts as lists of code points.
use Prim.Native.Char.{code}
use Prim.Native.Nat.{ℕ}
use Prim.Native.String.{String, ◌++◌ as ◌<>◌}
use mathlib.Core.Bool.{Bool, true, ◌&&◌}
use native.Mathlib.Omega.{arith}
use dp_mongodb.Base.Tests.{leb}
use mathlib.Core.List.{List, [], ◌∷◌, ◌++◌}
use mathlib.Core.Path.{◌≡◌, refl, ap, ◌∙◌}
use text.Mathlib.Text.{◌==◌}
use text.Mathlib.TextLemmas.{nil-append, cons-append}

abbrev pub str_eq : String → String → Bool
str_eq s t = s == t

abbrev pub codes : String → List ℕ
codes String.[] = []
codes (String.◌∷◌ c s) = code c ∷ codes s

pub codes-<> : (s t : String) → codes (s <> t) ≡ codes s ++ codes t
codes-<> String.[] t = ap codes (nil-append t)
codes-<> (String.◌∷◌ c s) t = ap codes (cons-append c s t) ∙ ap (◌∷◌ (code c)) (codes-<> s t)

-- `\d`
abbrev pub is_digit : ℕ → Bool
is_digit c = leb b'0' c && leb c b'9'

-- Every code point passes the test.
abbrev pub all_pass : (ℕ → Bool) → List ℕ → Bool
all_pass p [] = true
all_pass p (c ∷ cs) = p c && all_pass p cs

pub all_pass-append :
    (p : ℕ → Bool) (u v : List ℕ)
    → all_pass p u ≡ true
    → all_pass p v ≡ true
    → all_pass p (u ++ v) ≡ true
all_pass-append p [] v h k = k
all_pass-append p (c ∷ u) v h k = ground (arith, all_pass-append p u v (ground arith) k)

pub all_pass-weaken :
    (p q : ℕ → Bool)
    → ((c : ℕ) → p c ≡ true → q c ≡ true)
    → (t : List ℕ) → all_pass p t ≡ true
    → all_pass q t ≡ true
all_pass-weaken p q f [] h = refl
all_pass-weaken p q f (c ∷ t) h =
    ground (arith, f c (ground arith), all_pass-weaken p q f t (ground arith))
