-- ===== src/Base/Bits/Step.antt =====
-- One digit of the bitwise operators: how the lowest bit and the upper part of a result come from
-- those of the arguments. The library computes them digit by digit with fuel, which is shown not
-- to matter here.
use Prim.Native.Nat.{ℕ, zero, suc, ◌+◌, ◌-◌, ◌*◌, ◌/◌, ◌%◌, ◌≤◌, bit_and, bit_or, bit_xor}
use Prim.Native.Nat.{min, max, digits, bitwise, bit_and-bitwise, bit_or-bitwise, bit_xor-bitwise}
use Prim.Native.Nat.{differ}
use mathlib.Core.Path.{◌≡◌, refl, ap, ◌∙◌, sym}
use native.Mathlib.Omega.{arith}

module _ (pass : ℕ → ℕ) (op : ℕ → ℕ → ℕ) where
  -- One unit of fuel more than the first argument changes nothing, and so no number of them does.
  spare : (fuel x y : ℕ) → x ≤ fuel → digits pass op (suc fuel) x y ≡ digits pass op fuel x y
  spare zero zero y h = refl
  spare (suc fuel) zero y h = refl
  spare zero (suc x) y h = absurd (omega arith)
  spare (suc fuel) (suc x) y h =
      ap (λ upper. upper * 2 + op (suc x % 2) (y % 2))
        (spare fuel (suc x / 2) (y / 2) (omega arith))

  abbrev more : ℕ → ℕ → ℕ
  more zero x = x
  more (suc extra) x = suc (more extra x)

  more-add : (extra x : ℕ) → more extra x ≡ extra + x
  more-add zero x = omega arith
  more-add (suc extra) x = omega (arith, more-add extra x)

  settled : (extra x y : ℕ) → digits pass op (more extra x) x y ≡ bitwise pass op x y
  settled zero x y = refl
  settled (suc extra) x y =
      spare (more extra x) x y (omega (arith, more-add extra x)) ∙ settled extra x y

  lowest :
      (x y : ℕ)
      → op (suc x % 2) (y % 2) + 2 * bitwise pass op (suc x / 2) (y / 2) ≡ bitwise pass op (suc x) y
  lowest x y =
      let half = suc x / 2 in
      let fuel : x ≡ more (x - half) half = omega (arith, more-add (x - half) half) in
      omega (
        arith,
        settled (x - half) half (y / 2),
        ap (λ n. digits pass op n half (y / 2)) {y = more (x - half) half} fuel,
      )

pub bit_and_step : (x y : ℕ) → bit_and x y ≡ min (x % 2) (y % 2) + 2 * bit_and (x / 2) (y / 2)
bit_and_step zero y = simp bit_and-bitwise (omega arith)
bit_and_step (suc x) y = simp bit_and-bitwise (sym (lowest (λ t. 0) min x y))

pub bit_or_step : (x y : ℕ) → bit_or x y ≡ max (x % 2) (y % 2) + 2 * bit_or (x / 2) (y / 2)
bit_or_step zero y = simp bit_or-bitwise (omega arith)
bit_or_step (suc x) y = simp bit_or-bitwise (sym (lowest (λ t. t) max x y))

-- `differ` of two digits is their sum without the carry.
differ_digits : (a b : ℕ) → differ (a % 2) (b % 2) ≡ (a + b) % 2
differ_digits a b = go (a % 2) (b % 2) (omega arith) (omega arith) (omega arith)
  where
    go : (x y : ℕ) → x ≤ 1 → y ≤ 1 → (x + y) % 2 ≡ (a + b) % 2 → differ x y ≡ (a + b) % 2
    go zero y p q e = omega arith
    go (suc zero) zero p q e = omega arith
    go (suc zero) (suc zero) p q e = omega arith
    go (suc zero) (suc (suc y)) p q e = absurd (omega arith)
    go (suc (suc x)) y p q e = absurd (omega arith)

pub bit_xor_step : (x y : ℕ) → bit_xor x y ≡ (x + y) % 2 + 2 * bit_xor (x / 2) (y / 2)
bit_xor_step zero y = simp bit_xor-bitwise (omega arith)
bit_xor_step (suc x) y = simp bit_xor-bitwise (
    sym (lowest (λ t. t) differ x y)
    ∙ ap (λ (t : ℕ). t + 2 * bitwise (λ t. t) differ (suc x / 2) (y / 2)) (differ_digits (suc x) y))
