-- ===== src/Base/Bits/Fields.antt =====
-- Bit fields: a word whose low bits are 0, or'ed with a word of low bits, and the upper bits of a
-- word, as C writes them with `|`, `&` and a mask.
use Prim.Native.Nat.{ℕ, zero, suc, ◌+◌, ◌-◌, ◌*◌, ◌/◌, ◌%◌, ◌^◌, ◌≤◌, ◌<◌, bit_and, bit_or}
use Prim.Native.Nat.{bit_or-bitwise}
use mathlib.Core.Path.{◌≡◌, ap, ◌∙◌, sym}
use native.Mathlib.Nat.{
  pow-suc, pow-succ', mul_left_comm, div-div-eq-div-mul, mod-eq_of_lt, mod-lt, one-le-pow,
}
use native.Mathlib.Omega.{arith}
use wine_glass.Base.Bits.Step.{bit_or_step, bit_and_step}
use wine_glass.Base.Bits.{bit_and_low, div_pow-lt}

or_nothing : (fuel x : ℕ) → x ≤ fuel → bit_or x 0 ≡ x
or_nothing fuel zero h = bit_or-bitwise 0 0
or_nothing zero (suc x) h = absurd (omega arith)
or_nothing (suc fuel) (suc x) h =
    let upper = or_nothing fuel (suc x / 2) (omega arith) in
    omega (arith, upper, bit_or_step (suc x) 0)

double_power : (q k : ℕ) → q * 2 ^ suc k ≡ 2 * (q * 2 ^ k)
double_power q k =
    ap (λ (p : ℕ). q * p) {y = 2 * 2 ^ k} (omega (arith, pow-suc 2 k)) ∙ mul_left_comm q 2 (2 ^ k)

pub bit_or_disjoint : (k q y : ℕ) → y < 2 ^ k → bit_or (q * 2 ^ k) y ≡ q * 2 ^ k + y
bit_or_disjoint zero q y h = omega (
  arith,
  ap (bit_or (q * 1)) {x = y} {y = 0} (omega arith),
  ap (λ (x : ℕ). bit_or x 0) {x = q * 1} {y = q} (omega arith),
  or_nothing q q (omega arith),
)
bit_or_disjoint (suc k) q y h = omega (
  arith,
  bit_or_step (q * 2 ^ suc k) y,
  double_power q k,
  ap (λ (x : ℕ). bit_or x (y / 2)) {x = q * 2 ^ suc k / 2} {y = q * 2 ^ k}
      (omega (arith, double_power q k)),
  bit_or_disjoint k q (y / 2) (omega (arith, pow-suc 2 k)),
)

upper_part : (k x : ℕ) → x / 2 ^ suc k ≡ x / 2 / 2 ^ k
upper_part k x = rw (div-div-eq-div-mul x 2 (2 ^ k), pow-succ' 2 k)

bit_or_comm : (n x y : ℕ) → x ≤ n → y ≤ n → bit_or x y ≡ bit_or y x
bit_or_comm zero x y p q =
    let e : x ≡ 0 = omega (arith, p) in let f : y ≡ 0 = omega (arith, q) in rw (e, f)
bit_or_comm (suc n) x y p q = omega (
  arith,
  bit_or_step x y,
  bit_or_step y x,
  bit_or_comm n (x / 2) (y / 2) (omega (arith, p)) (omega (arith, q)),
)

-- The same with the word of low bits first.
pub bit_or_above : (k y q : ℕ) → y < 2 ^ k → bit_or y (q * 2 ^ k) ≡ y + q * 2 ^ k
bit_or_above k y q h =
    bit_or_comm (y + q * 2 ^ k) y (q * 2 ^ k) (omega arith) (omega arith)
    ∙ bit_or_disjoint k q y h
    ∙ omega arith

pub bit_and_upper : (k x m : ℕ) → bit_and x (m * 2 ^ k) ≡ bit_and (x / 2 ^ k) m * 2 ^ k
bit_and_upper zero x m = omega (
  arith,
  ap (bit_and x) {x = m * 1} {y = m} (omega arith),
  ap (λ (t : ℕ). bit_and t m) {x = x / 1} {y = x} (omega arith),
)
bit_and_upper (suc k) x m = omega (
  arith,
  bit_and_step x (m * 2 ^ suc k),
  double_power m k,
  ap (λ (t : ℕ). bit_and (x / 2) t) {x = m * 2 ^ suc k / 2} {y = m * 2 ^ k}
      (omega (arith, double_power m k)),
  bit_and_upper k (x / 2) m,
  double_power (bit_and (x / 2 / 2 ^ k) m) k,
  ap (λ (t : ℕ). bit_and t m * 2 ^ suc k) {x = x / 2 / 2 ^ k} {y = x / 2 ^ suc k}
      (sym (upper_part k x)),
)

-- A field of `k` bits in a word of `k + j` bits, replaced by the low bits of another word.
pub replace_low :
    (k j x v : ℕ)
    → x < 2 ^ (j + k)
    → bit_or (bit_and x ((2 ^ j - 1) * 2 ^ k)) (bit_and v (2 ^ k - 1))
      ≡ x / 2 ^ k * 2 ^ k + v % 2 ^ k
replace_low k j x v h =
    rw
      (
        bit_and_upper k x (2 ^ j - 1),
        bit_and_low j (x / 2 ^ k),
        bit_and_low k v,
        mod-eq_of_lt (div_pow-lt j k x h),
      )
      (bit_or_disjoint k (x / 2 ^ k) (v % 2 ^ k) (mod-lt v (one-le-pow k 2 (omega arith))))
