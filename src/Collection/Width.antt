-- ===== src/Collection/Width.antt =====
-- The conversion `int(x)` of mongodb/collection.go, of an int64, where an int has a number of bits
-- that `mongodb.Open` looks at.
use Prim.Native.Nat.{◌%◌, ◌^◌}
use native.Mathlib.Nat.{pow-le-pow_right, mod-eq_of_lt, mod-lt}
use mathlib.Core.Path.{subst}
use dp_mongodb.Base.{ℕ, ◌+◌, ◌-◌, ◌≤◌, ◌<◌, ◌≡◌, ◌↔◌, arith, ltb, if◌then◌else◌}
use dp_mongodb.Base.Int.{ℤ, pos, negsuc}

-- The values that a signed integer of so many bits has.
abbrev pub Fits : ℕ → ℤ → Type 0
Fits bits (pos n) = n < 2 ^ (bits - 1)
Fits bits (negsuc n) = n < 2 ^ (bits - 1)

-- The low bits, in two's complement. `half` is half the number of patterns.
abbrev pattern_of : ℕ → ℤ → ℕ
pattern_of half (pos n) = n % (half + half)
pattern_of half (negsuc n) = half + half - 1 - n % (half + half)

abbrev signed : ℕ → ℕ → ℤ
signed half p = if ltb p half then pos p else negsuc (half + half - 1 - p)

-- `int(x)`
unfoldable pub to_int : ℕ → ℤ → ℤ
to_int bits x = signed (2 ^ (bits - 1)) (pattern_of (2 ^ (bits - 1)) x)

signed-pos : (half n : ℕ) → n < half → signed half (n % (half + half)) ≡ pos n
signed-pos half n h = rw (mod-eq_of_lt {n = n} {m = half + half} (omega arith)) (ground arith)

signed-negsuc :
    (half n : ℕ) → n < half → signed half (half + half - 1 - n % (half + half)) ≡ negsuc n
signed-negsuc half n h = rw (mod-eq_of_lt {n = n} {m = half + half} (omega arith)) (ground arith)

signed_bounds :
    (bits p : ℕ)
    → 0 < 2 ^ (bits - 1)
    → p < 2 ^ (bits - 1) + 2 ^ (bits - 1)
    → Fits bits (signed (2 ^ (bits - 1)) p)
signed_bounds bits p h k = ground arith

half_pos : (bits : ℕ) → 0 < 2 ^ (bits - 1)
half_pos bits = pow-le-pow_right {n = 2} (omega arith) {i = 0} (omega arith)

pattern-lt : (half : ℕ) (x : ℤ) → 0 < half → pattern_of half x < half + half
pattern-lt half (pos n) h = mod-lt n (omega arith)
pattern-lt half (negsuc n) h = omega arith

-- An integer is converted to itself exactly if it fits.
pub to_int-id : (bits : ℕ) (x : ℤ) → (to_int bits x ≡ x) ↔ Fits bits x
unfolding to_int
to_int-id bits x = (
  λ e. subst (Fits bits) e (signed_bounds bits _ (half_pos bits) (pattern-lt _ x (half_pos bits))),
  fits x,
)
  where
    fits : (y : ℤ) → Fits bits y → to_int bits y ≡ y
    fits (pos n) = signed-pos (2 ^ (bits - 1)) n
    fits (negsuc n) = signed-negsuc (2 ^ (bits - 1)) n

-- What fits fits any larger width.
pub Fits-le : (a b : ℕ) (x : ℤ) → a ≤ b → Fits a x → Fits b x
Fits-le a b (pos n) h k =
    omega (arith, pow-le-pow_right {n = 2} (omega arith) {i = a - 1} {j = b - 1} (omega arith))
Fits-le a b (negsuc n) h k =
    omega (arith, pow-le-pow_right {n = 2} (omega arith) {i = a - 1} {j = b - 1} (omega arith))
