-- ===== src/Lock/Decimal.antt =====
-- `%d` of `fmt.Sprintf`, for a number that is not negative.
pub mod Reading
use dp_mongodb.Base.{ℕ, zero, suc, ◌≡◌, refl, ◌<>◌, String, ltb, if◌then◌else◌}
use Prim.Native.Nat.{◌/◌, ◌%◌}

abbrev digit : ℕ → String
digit zero = "0"
digit (suc zero) = "1"
digit (suc (suc zero)) = "2"
digit (suc (suc (suc zero))) = "3"
digit (suc (suc (suc (suc zero)))) = "4"
digit (suc (suc (suc (suc (suc zero))))) = "5"
digit (suc (suc (suc (suc (suc (suc zero)))))) = "6"
digit (suc (suc (suc (suc (suc (suc (suc zero))))))) = "7"
digit (suc (suc (suc (suc (suc (suc (suc (suc zero)))))))) = "8"
digit _ = "9"

-- A number below 10 to the power of the fuel is written out whole.
digits : ℕ → ℕ → String
digits zero n = digit n
digits (suc f) n =
    let rest = digits f (n / 10) in if ltb n 10 then digit n else rest <> digit (n % 10)

-- More digits than a 64-bit integer has.
unfoldable pub decimal : ℕ → String
unfolding digits
decimal n = digits 20 n

decimal_runs : decimal 1_234_507_890 ≡ "1234507890"
unfolding decimal
decimal_runs = refl
