-- ===== src/Base/Bits.antt =====
-- The bits of a number, and the bitwise operators seen bit by bit.
mod Step
pub mod Fields
use Step.{bit_or_step, bit_and_step, bit_xor_step}
use Prim.Native.Nat.{ℕ, zero, suc, ◌+◌, ◌-◌, ◌*◌, ◌/◌, ◌%◌, ◌^◌, ◌≤◌, ◌<◌}
use Prim.Native.Nat.{bit_and, bit_or, bit_xor, min, max}
use Prim.Native.Nat.{bit_and-bitwise, bit_or-bitwise, bit_xor-bitwise}
use mathlib.Core.Path.{◌≡◌, refl, ap, ◌∙◌}
use mathlib.Core.Bool.{not}
use native.Mathlib.Nat.{pow-suc, pow-succ', one-le-pow, div-le_self, div-div-eq-div-mul}
use native.Mathlib.Omega.{arith}
use wine_glass.Base.Tests.{◌==◌, if◌then◌else◌}
use wine_glass.Base.Words.{test_mask}

-- Bit `k` of `x`, as 0 or 1.
pub bit_at : ℕ → ℕ → ℕ
bit_at zero x = x % 2
bit_at (suc k) x = bit_at k (x / 2)

pub bit_at-le : (k x : ℕ) → bit_at k x ≤ 1
unfolding bit_at
bit_at-le zero x = omega arith
bit_at-le (suc k) x = bit_at-le k (x / 2)

pub bit_at-div : (k x : ℕ) → bit_at k x ≡ x / 2 ^ k % 2
unfolding bit_at
bit_at-div zero x = omega arith
bit_at-div (suc k) x = rw (bit_at-div k (x / 2), div-div-eq-div-mul x 2 (2 ^ k), pow-succ' 2 k)

half-and : (x y : ℕ) → bit_and x y / 2 ≡ bit_and (x / 2) (y / 2)
half-and x y = omega (arith, bit_and_step x y)

half-or : (x y : ℕ) → bit_or x y / 2 ≡ bit_or (x / 2) (y / 2)
half-or x y = omega (arith, bit_or_step x y)

half-xor : (x y : ℕ) → bit_xor x y / 2 ≡ bit_xor (x / 2) (y / 2)
half-xor x y = omega (arith, bit_xor_step x y)

pub bit_at-and : (k x y : ℕ) → bit_at k (bit_and x y) ≡ min (bit_at k x) (bit_at k y)
unfolding bit_at
bit_at-and zero x y = omega (arith, bit_and_step x y)
bit_at-and (suc k) x y = rw (half-and x y) (bit_at-and k (x / 2) (y / 2))

pub bit_at-or : (k x y : ℕ) → bit_at k (bit_or x y) ≡ max (bit_at k x) (bit_at k y)
unfolding bit_at
bit_at-or zero x y = omega (arith, bit_or_step x y)
bit_at-or (suc k) x y = rw (half-or x y) (bit_at-or k (x / 2) (y / 2))

pub bit_at-xor : (k x y : ℕ) → bit_at k (bit_xor x y) ≡ (bit_at k x + bit_at k y) % 2
unfolding bit_at
bit_at-xor zero x y = omega (arith, bit_xor_step x y)
bit_at-xor (suc k) x y = rw (half-xor x y) (bit_at-xor k (x / 2) (y / 2))

-- The complement to `n` bits flips each of them.
pub bit_at-not : (n k y : ℕ) → y < 2 ^ n → k < n → bit_at k (2 ^ n - 1 - y) ≡ 1 - bit_at k y
unfolding bit_at
bit_at-not zero k y fits below = absurd (omega arith)
bit_at-not (suc n) zero y fits below = omega (arith, pow-suc 2 n, one-le-pow n 2)
bit_at-not (suc n) (suc k) y fits below =
    rw half (bit_at-not n k (y / 2) (omega (arith, pow-suc 2 n)) (omega arith))
  where
    half : (2 ^ suc n - 1 - y) / 2 ≡ 2 ^ n - 1 - y / 2
    half = omega (arith, pow-suc 2 n, one-le-pow n 2)

pub bit_at-zero : (k : ℕ) → bit_at k 0 ≡ 0
unfolding bit_at
bit_at-zero zero = refl
bit_at-zero (suc k) = bit_at-zero k

half_pow : (j : ℕ) → 2 ^ suc j / 2 ≡ 2 ^ j
half_pow j = omega (arith, pow-suc 2 j)

pub bit_at-pow : (k j : ℕ) → bit_at k (2 ^ j) ≡ (if k == j then 1 else 0)
unfolding bit_at
bit_at-pow zero zero = refl
bit_at-pow zero (suc j) = ground (arith, pow-suc 2 j)
bit_at-pow (suc k) zero = rw (bit_at-zero k) (ground arith)
bit_at-pow (suc k) (suc j) = rw (half_pow j) (ground (arith, bit_at-pow k j))

-- Bounds: the operators stay within `k` bits.
pub bit_and-lt : (k x y : ℕ) → x < 2 ^ k → bit_and x y < 2 ^ k
bit_and-lt zero zero y h = omega (arith, bit_and-bitwise 0 y)
bit_and-lt zero (suc x) y h = absurd (omega arith)
bit_and-lt (suc k) x y h = omega (
  arith,
  bit_and_step x y,
  pow-suc 2 k,
  bit_and-lt k (x / 2) (y / 2) (omega (arith, pow-suc 2 k)),
)

pub bit_or-lt : (k x y : ℕ) → x < 2 ^ k → y < 2 ^ k → bit_or x y < 2 ^ k
bit_or-lt zero zero y h g = omega (arith, bit_or-bitwise 0 y)
bit_or-lt zero (suc x) y h g = absurd (omega arith)
bit_or-lt (suc k) x y h g = omega (
  arith,
  bit_or_step x y,
  pow-suc 2 k,
  bit_or-lt k (x / 2) (y / 2) (omega (arith, pow-suc 2 k)) (omega (arith, pow-suc 2 k)),
)

pub bit_xor-lt : (k x y : ℕ) → x < 2 ^ k → y < 2 ^ k → bit_xor x y < 2 ^ k
bit_xor-lt zero zero y h g = omega (arith, bit_xor-bitwise 0 y)
bit_xor-lt zero (suc x) y h g = absurd (omega arith)
bit_xor-lt (suc k) x y h g = omega (
  arith,
  bit_xor_step x y,
  pow-suc 2 k,
  bit_xor-lt k (x / 2) (y / 2) (omega (arith, pow-suc 2 k)) (omega (arith, pow-suc 2 k)),
)

bit_and-zero_upto : (n x : ℕ) → x ≤ n → bit_and x 0 ≡ 0
bit_and-zero_upto n zero h = bit_and-bitwise 0 0
bit_and-zero_upto zero (suc x) h = absurd (omega arith)
bit_and-zero_upto (suc n) (suc x) h =
    omega (arith, bit_and_step (suc x) 0, bit_and-zero_upto n (suc x / 2) (omega arith))

pub bit_and-zero : (x : ℕ) → bit_and x 0 ≡ 0
bit_and-zero x = bit_and-zero_upto x x (omega arith)

bit_and-pow : (k x : ℕ) → bit_and x (2 ^ k) ≡ bit_at k x * 2 ^ k
unfolding bit_at
bit_and-pow zero x = omega (arith, bit_and_step x 1, bit_and-zero (x / 2))
bit_and-pow (suc k) x = omega (
  arith,
  bit_and_step x (2 ^ suc k),
  pow-suc 2 k,
  ap (bit_and (x / 2)) (half_pow k),
  bit_and-pow k (x / 2),
  ap (λ (t : ℕ). bit_at k (x / 2) * t) (pow-suc 2 k),
)

-- `(x & (1 << k)) != 0` reads bit `k`.
pub test_mask-pow : (k x : ℕ) → test_mask x (2 ^ k) ≡ (bit_at k x == 1)
test_mask-pow k x = go (bit_at k x) (bit_at-le k x) (bit_and-pow k x)
  where
    go : (b : ℕ) → b ≤ 1 → bit_and x (2 ^ k) ≡ b * 2 ^ k → test_mask x (2 ^ k) ≡ (b == 1)
    go b h e = ground (arith, one-le-pow k 2)

mod-double : (m x : ℕ) → 0 < m → x % (2 * m) ≡ x / 2 % m * 2 + x % 2
mod-double m x h = grind arith

-- `x & (2^k - 1)` is the remainder by `2^k`.
pub bit_and_low : (k x : ℕ) → bit_and x (2 ^ k - 1) ≡ x % 2 ^ k
bit_and_low zero x = omega (arith, bit_and-zero x)
bit_and_low (suc k) x = omega (
  arith,
  bit_and_step x (2 ^ suc k - 1),
  pow-suc 2 k,
  one-le-pow k 2,
  ap (bit_and (x / 2)) half_mask,
  bit_and_low k (x / 2),
  mod-double (2 ^ k) x (one-le-pow k 2 (omega arith)),
  ap (λ (t : ℕ). x % t) (pow-succ' 2 k),
)
  where
    half_mask : (2 ^ suc k - 1) / 2 ≡ 2 ^ k - 1
    half_mask = omega (arith, pow-suc 2 k, one-le-pow k 2)

-- A shift to the right takes its count off the number of bits.
pub div_pow-lt : (j k x : ℕ) → x < 2 ^ (j + k) → x / 2 ^ k < 2 ^ j
div_pow-lt j zero x h = omega (arith, same, div-le_self x (2 ^ 0))
  where
    same : 2 ^ (j + 0) ≡ 2 ^ j
    same = ap (λ (n : ℕ). 2 ^ n) {y = j} (omega arith)
div_pow-lt j (suc k) x h =
    rw (halved) (div_pow-lt j k (x / 2) (omega (arith, doubled, pow-suc 2 (j + k))))
  where
    doubled : 2 ^ (j + suc k) ≡ 2 ^ suc (j + k)
    doubled = ap (λ (n : ℕ). 2 ^ n) {y = suc (j + k)} (omega arith)

    halved : x / 2 ^ suc k ≡ x / 2 / 2 ^ k
    halved = rw (div-div-eq-div-mul x 2 (2 ^ k), pow-succ' 2 k)
