-- ===== src/Base/Word.antt =====
-- Go's 64-bit integers, as bit patterns below 2^64: `int`, `int64` and `time.Duration` read a
-- pattern as two's complement, `uint64` reads it as it stands, so a conversion changes nothing.
use Prim.Native.Nat.{ℕ, ◌+◌, ◌-◌, ◌*◌, ◌/◌, ◌%◌, ◌^◌, ◌<◌}
use mathlib.Core.Path.{◌≡◌}
use mathlib.Core.Bool.{Bool}
use native.Mathlib.Omega.{arith}
use hystrix_go.Base.Tests.{ltb, leb, if◌then◌else◌}

abbrev pub add64 : ℕ → ℕ → ℕ
add64 a b = (a + b) % 2 ^ 64

abbrev pub mul64 : ℕ → ℕ → ℕ
mul64 a b = a * b % 2 ^ 64

-- The order of `int64` is the order of the patterns with the top bit flipped.
abbrev pub bias : ℕ → ℕ
bias a = (a + 2 ^ 63) % 2 ^ 64

-- `a < b` and `a <= b` on `int64`
abbrev pub slt : ℕ → ℕ → Bool
slt a b = ltb (bias a) (bias b)

abbrev pub sle : ℕ → ℕ → Bool
sle a b = leb (bias a) (bias b)

-- the larger of two `int64`
abbrev pub smax : ℕ → ℕ → ℕ
smax a b = if slt a b then b else a

-- `a / n` on `int64` for a positive `n`: the quotient is cut off towards zero.
abbrev pub sdiv : ℕ → ℕ → ℕ
sdiv a n = if ltb a (2 ^ 63) then a / n else (2 ^ 64 - (2 ^ 64 - a) / n) % 2 ^ 64

-- a pattern that stands for a number of zero or more
abbrev pub IsNonneg : ℕ → Type 0
IsNonneg a = a < 2 ^ 63

pub smax_assoc :
    (a b c : ℕ) → a < 2 ^ 64 → b < 2 ^ 64 → c < 2 ^ 64 → smax (smax a b) c ≡ smax a (smax b c)
smax_assoc a b c ha hb hc = ground arith

pub smax_comm : (a b : ℕ) → a < 2 ^ 64 → b < 2 ^ 64 → smax a b ≡ smax b a
smax_comm a b ha hb = ground arith

pub smax_swap :
    (a b c : ℕ) → a < 2 ^ 64 → b < 2 ^ 64 → c < 2 ^ 64 → smax (smax a b) c ≡ smax (smax a c) b
smax_swap a b c ha hb hc = ground arith
