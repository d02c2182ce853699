-- ===== src/Lock/Decimal/Reading.antt =====
-- The number that a printed number stands for.
use Prim.Native.Nat.{◌/◌, ◌%◌, ◌^◌}
use dp_mongodb.Base.{
  ℕ, zero, suc, ◌+◌, ◌*◌, ◌-◌, ◌<◌, ◌≡◌, ◌∙◌, inl, inr, refl, List, [], ◌∷◌, ◌++◌, ltb, true,
  Bool-cases, arith,
}
use dp_mongodb.Base.Text.{codes, codes-<>, is_digit, all_pass, all_pass-append}
use dp_mongodb.Lock.Decimal.{digit, digits, decimal}

-- Reads digits, behind those that have been read.
abbrev pub read : ℕ → List ℕ → ℕ
read n [] = n
read n (c ∷ cs) = read (n * 10 + (c - b'0')) cs

read-append : (n : ℕ) (u v : List ℕ) → read n (u ++ v) ≡ read (read n u) v
read-append n [] v = refl
read-append n (c ∷ u) v = read-append (n * 10 + (c - b'0')) u v

read-digit : (n d : ℕ) → d < 10 → read n (codes (digit d)) ≡ n * 10 + d
read-digit n zero h = omega arith
read-digit n (suc zero) h = omega arith
read-digit n (suc (suc zero)) h = omega arith
read-digit n (suc (suc (suc zero))) h = omega arith
read-digit n (suc (suc (suc (suc zero)))) h = omega arith
read-digit n (suc (suc (suc (suc (suc zero))))) h = omega arith
read-digit n (suc (suc (suc (suc (suc (suc zero)))))) h = omega arith
read-digit n (suc (suc (suc (suc (suc (suc (suc zero))))))) h = omega arith
read-digit n (suc (suc (suc (suc (suc (suc (suc (suc zero)))))))) h = omega arith
read-digit n (suc (suc (suc (suc (suc (suc (suc (suc (suc zero))))))))) h = omega arith
read-digit n (suc (suc (suc (suc (suc (suc (suc (suc (suc (suc d)))))))))) h = absurd (omega arith)

-- Ten to the power of the fuel and one.
power : ℕ → ℕ
power zero = 10
power (suc f) = 10 * power f

read-digits : (f n : ℕ) → n < power f → read 0 (codes (digits f n)) ≡ n
unfolding digits power
read-digits zero n h = read-digit 0 n h ∙ omega arith
read-digits (suc f) n h = elim (Bool-cases (ltb n 10)) [
  | inl small ↦ rw small (read-digit 0 n (ground arith) ∙ omega arith)
  | inr big ↦
      rw (big, codes-<> (digits f (n / 10)) (digit (n % 10)))
        (read-append 0 (codes (digits f (n / 10))) (codes (digit (n % 10)))
          ∙ read-digit (read 0 (codes (digits f (n / 10)))) (n % 10) (omega arith)
          ∙ omega (arith, read-digits f (n / 10) (omega arith)))
]

-- A number that fits 64 bits is what its digits are read as.
pub read-decimal : (n : ℕ) → n < 2 ^ 64 → read 0 (codes (decimal n)) ≡ n
unfolding decimal power
read-decimal n h = read-digits 20 n (omega arith)

-- A printed number has digits only.
all_pass-digit : (d : ℕ) → all_pass is_digit (codes (digit d)) ≡ true
all_pass-digit zero = refl
all_pass-digit (suc zero) = refl
all_pass-digit (suc (suc zero)) = refl
all_pass-digit (suc (suc (suc zero))) = refl
all_pass-digit (suc (suc (suc (suc zero)))) = refl
all_pass-digit (suc (suc (suc (suc (suc zero))))) = refl
all_pass-digit (suc (suc (suc (suc (suc (suc zero)))))) = refl
all_pass-digit (suc (suc (suc (suc (suc (suc (suc zero))))))) = refl
all_pass-digit (suc (suc (suc (suc (suc (suc (suc (suc zero)))))))) = refl
all_pass-digit (suc (suc (suc (suc (suc (suc (suc (suc (suc zero))))))))) = refl
all_pass-digit (suc (suc (suc (suc (suc (suc (suc (suc (suc (suc d)))))))))) = refl

all_pass-digits : (f n : ℕ) → all_pass is_digit (codes (digits f n)) ≡ true
unfolding digits
all_pass-digits zero n = all_pass-digit n
all_pass-digits (suc f) n = elim (Bool-cases (ltb n 10)) [
  | inl small ↦ rw small (all_pass-digit n)
  | inr big ↦
      rw (big, codes-<> (digits f (n / 10)) (digit (n % 10)))
        (all_pass-append is_digit (codes (digits f (n / 10))) (codes (digit (n % 10)))
          (all_pass-digits f (n / 10)) (all_pass-digit (n % 10)))
]

pub all_pass-decimal : (n : ℕ) → all_pass is_digit (codes (decimal n)) ≡ true
unfolding decimal
all_pass-decimal n = all_pass-digits 20 n
