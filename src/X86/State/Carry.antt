-- ===== src/X86/State/Carry.antt =====
-- The carry and the overflow flag after `wg_x86_update_flags_add`.
use wine_glass.Base.{
  ℕ, ◌+◌, ◌-◌, ◌*◌, ◌/◌, ◌%◌, ◌^◌, ◌<◌, ◌≡◌, ◌∙◌, Bool, true, false, not, ◌&&◌, ◌==◌, ltb, leb,
  if◌then◌else◌, arith, bit_and, bit_xor, min,
}
use wine_glass.Base.Words.{u64, test_mask}
use wine_glass.Base.Bits.{bit_at-div, bit_at-and, bit_at-xor, test_mask-pow}
use wine_glass.X86.State.{Cpu, flag_cf, flag_of, get_flag, update_flags_add, mask_for_bits}
use wine_glass.X86.State.Flags.{add_flags}
use wine_glass.X86.State.Compare.{Width, w8, w16, w32, w64, bits}

-- Whether the sum of two patterns, read as signed numbers, has no pattern of its width: both are
-- taken up by half the modulus, so the sum by a whole one.
abbrev pub signed_add_overflows : Width → ℕ → ℕ → Bool
signed_add_overflows w a b =
    let h = 2 ^ (bits w - 1) in
    let sum = (a + h) % 2 ^ bits w + (b + h) % 2 ^ bits w in not (leb h sum && ltb sum (3 * h))

abbrev pub is_w64 : Width → Bool
is_w64 w64 = true
is_w64 w = false

digits_overflow :
    (k a b r : ℕ)
    → test_mask (bit_and (bit_xor a r) (bit_xor b r)) (2 ^ k)
      ≡ (min ((a / 2 ^ k % 2 + r / 2 ^ k % 2) % 2) ((b / 2 ^ k % 2 + r / 2 ^ k % 2) % 2) == 1)
digits_overflow k a b r =
    test_mask-pow k _
    ∙ rw (
      bit_at-and k (bit_xor a r) (bit_xor b r),
      bit_at-xor k a r,
      bit_at-xor k b r,
      bit_at-div k a,
      bit_at-div k b,
      bit_at-div k r,
    )

overflow_digits :
    (w : Width) (a b : ℕ)
    → a < 2 ^ bits w
    → b < 2 ^ bits w
    → let k = bits w - 1 in
      let r = u64 (a + b) in
      (min ((a / 2 ^ k % 2 + r / 2 ^ k % 2) % 2) ((b / 2 ^ k % 2 + r / 2 ^ k % 2) % 2) == 1)
      ≡ signed_add_overflows w a b
overflow_digits w8 a b ha hb = ground arith
overflow_digits w16 a b ha hb = ground arith
overflow_digits w32 a b ha hb = ground arith
overflow_digits w64 a b ha hb = ground arith

module _ (w : Width) (s : Cpu) (a b : ℕ) (ha : a < 2 ^ bits w) (hb : b < 2 ^ bits w) where
  abbrev added : Cpu
  added = update_flags_add s a b (u64 (a + b)) (bits w)

  -- After an addition OF says whether the signed sum overflows its width. CF says whether the
  -- unsigned sum does, but for 64-bit operands: there it is always clear.
  pub get_flag-added :
      (get_flag added flag_of ≡ signed_add_overflows w a b)
      × (get_flag added flag_cf ≡ (if is_w64 w then false else leb (2 ^ bits w) (a + b)))
  get_flag-added = (
    (add_flags s a b (u64 (a + b)) (bits w)).3
        ∙ digits_overflow (bits w - 1) a b (u64 (a + b))
        ∙ overflow_digits w a b ha hb,
    (add_flags s a b (u64 (a + b)) (bits w)).0 ∙ carry w a b ha hb,
  )
    where
      carry :
          (w : Width) (a b : ℕ)
          → a < 2 ^ bits w
          → b < 2 ^ bits w
          → ltb (mask_for_bits (bits w)) (u64 (a + b))
            ≡ (if is_w64 w then false else leb (2 ^ bits w) (a + b))
      carry w8 a b ha hb = ground arith
      carry w16 a b ha hb = ground arith
      carry w32 a b ha hb = ground arith
      carry w64 a b ha hb = ground arith
