-- ===== src/Base/Words.antt =====
-- The C integer types: casts as remainders, `~`, shifts, and masks of one bit.
use Prim.Native.Nat.{ℕ, ◌+◌, ◌-◌, ◌*◌, ◌/◌, ◌%◌, ◌^◌, bit_and}
use mathlib.Core.Bool.{Bool, not, ◌||◌}
use wine_glass.Base.Tests.{ltb, leb, ◌==◌, if◌then◌else◌}

abbrev pub u8 : ℕ → ℕ
u8 n = n % 2 ^ 8

abbrev pub u16 : ℕ → ℕ
u16 n = n % 2 ^ 16

abbrev pub u32 : ℕ → ℕ
u32 n = n % 2 ^ 32

abbrev pub u64 : ℕ → ℕ
u64 n = n % 2 ^ 64

-- `~x`, `a - b` and `-x` of a `uint64_t`.
abbrev pub not64 : ℕ → ℕ
not64 x = 2 ^ 64 - 1 - x

abbrev pub sub64 : ℕ → ℕ → ℕ
sub64 a b = u64 (a + 2 ^ 64 - b)

infixl 75 ◌<<<◌ ◌>>>◌
abbrev pub ◌<<<◌ : ℕ → ℕ → ℕ
x <<< k = x * 2 ^ k

abbrev pub ◌>>>◌ : ℕ → ℕ → ℕ
x >>> k = x / 2 ^ k

-- `(x & m) != 0`
abbrev pub test_mask : ℕ → ℕ → Bool
test_mask x m = not (bit_and x m == 0)

-- A signed `w`-bit value, cast to 64 bits: the pattern of the `int64_t` with the same value.
abbrev pub sext : ℕ → ℕ → ℕ
sext w x = if ltb x (2 ^ (w - 1)) then x else x + (2 ^ 64 - 2 ^ w)

-- `v <= 0` of an `int32_t`
abbrev pub at_most_zero : ℕ → Bool
at_most_zero v = (v == 0) || leb (2 ^ 31) v
