-- ===== src/Base/Duration.antt =====
-- `time.Duration`, a signed number of nanoseconds in 64 bits.
use Prim.Native.Nat.{ℕ, suc, ◌+◌, ◌-◌}
use dp_mongodb.Base.Tests.{leb, if◌then◌else◌}
use dp_mongodb.Base.Int.{ℤ, pos, negsuc}

-- `math.MaxInt64`, about 292 years
abbrev pub max_duration : ℕ
max_duration = 9_223_372_036_854_775_807

abbrev pub at_most : ℕ → ℕ → ℕ
at_most bound n = if leb n bound then n else bound

-- `t.Sub(u)` of two times, which stops at the greatest and at the least duration
abbrev pub sub : ℕ → ℕ → ℤ
sub t u =
    if leb u t
    then pos (at_most max_duration (t - u))
    else negsuc (at_most max_duration (u - suc t))

-- `d + n`, for a duration `n` that is not negative: the sum wraps around
abbrev pub plus : ℤ → ℕ → ℤ
plus (pos m) n =
    if leb (m + n) max_duration then pos (m + n) else negsuc (18_446_744_073_709_551_615 - (m + n))
plus (negsuc m) n = if leb n m then negsuc (m - n) else pos (n - suc m)
