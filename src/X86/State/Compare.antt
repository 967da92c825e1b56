-- ===== src/X86/State/Compare.antt =====
-- The conditions of a jump after a comparison: `eval_condition` of Sources/CPU/wg_x86_interp.c on
-- the flags that `wg_x86_update_flags_sub` leaves.
use wine_glass.Base.{
  ℕ, ◌+◌, ◌-◌, ◌/◌, ◌%◌, ◌^◌, ◌<◌, ◌≡◌, ap, ◌∙◌, Bool, true, false, not, ◌&&◌, ◌||◌, ◌==◌, ltb, leb,
  if◌then◌else◌, arith, bit_and, bit_xor, min, ap₂,
}
use wine_glass.Base.Words.{test_mask, sub64}
use wine_glass.Base.Bits.{bit_at-div, bit_at-and, bit_at-xor, test_mask-pow, bit_and_low}
use wine_glass.X86.State.{
  Cpu, flag_cf, flag_zf, flag_sf, flag_of, flag_pf, get_flag, update_flags_sub, mask_for_bits,
  sign_bit,
}
use wine_glass.X86.State.Flags.{sub_flags}

-- `!=` and `==` of two `bool`s.
abbrev pub differs : Bool → Bool → Bool
differs true b = not b
differs false b = b

-- The sixteen condition codes, in their order.
abbrev pub condition_holds : ℕ → Bool → Bool → Bool → Bool → Bool → Bool
condition_holds cc cf zf sf of pf =
    if cc == 0x0
    then of
    else if cc == 0x1
    then not of
    else if cc == 0x2
    then cf
    else if cc == 0x3
    then not cf
    else if cc == 0x4
    then zf
    else if cc == 0x5
    then not zf
    else if cc == 0x6
    then cf || zf
    else if cc == 0x7
    then not cf && not zf
    else if cc == 0x8
    then sf
    else if cc == 0x9
    then not sf
    else if cc == 0xA
    then pf
    else if cc == 0xB
    then not pf
    else if cc == 0xC
    then differs sf of
    else if cc == 0xD
    then not (differs sf of)
    else if cc == 0xE
    then zf || differs sf of
    else if cc == 0xF
    then not zf && not (differs sf of)
    else false

pub eval_condition : Cpu → ℕ → Bool
eval_condition cpu cc =
    condition_holds (bit_and cc 0xF) (get_flag cpu flag_cf) (get_flag cpu flag_zf)
      (get_flag cpu flag_sf) (get_flag cpu flag_of) (get_flag cpu flag_pf)

-- The operand sizes, in bits.
pub data Width : Type 0 where
  w8 w16 w32 w64 : Width

abbrev pub bits : Width → ℕ
bits w8 = 8
bits w16 = 16
bits w32 = 32
bits w64 = 64

-- The order of two patterns read as signed numbers: the sign bit counts down, so add half.
abbrev pub signed_ltb : Width → ℕ → ℕ → Bool
signed_ltb w a b = ltb ((a + 2 ^ (bits w - 1)) % 2 ^ bits w) ((b + 2 ^ (bits w - 1)) % 2 ^ bits w)

sign_test : (k x : ℕ) → test_mask x (2 ^ k) ≡ (x / 2 ^ k % 2 == 1)
sign_test k x = test_mask-pow k x ∙ ap (λ (t : ℕ). t == 1) (bit_at-div k x)

cut_low : (w : Width) (r : ℕ) → bit_and r (mask_for_bits (bits w)) ≡ r % 2 ^ bits w
cut_low w8 r = bit_and_low 8 r
cut_low w16 r = bit_and_low 16 r
cut_low w32 r = bit_and_low 32 r
cut_low w64 r = bit_and_low 64 r

abbrev digit : ℕ → ℕ → ℕ
digit k x = x / 2 ^ k % 2

overflow_test :
    (k a b r : ℕ)
    → test_mask (bit_and (bit_xor a b) (bit_xor a r)) (2 ^ k)
      ≡ (min ((digit k a + digit k b) % 2) ((digit k a + digit k r) % 2) == 1)
overflow_test k a b r =
    test_mask-pow k _
    ∙ rw (
      bit_at-and k (bit_xor a b) (bit_xor a r),
      bit_at-xor k a b,
      bit_at-xor k a r,
      bit_at-div k a,
      bit_at-div k b,
      bit_at-div k r,
    )

-- On the digits of the sign, the test of JL is the signed order.
less_digits :
    (w : Width) (a b : ℕ)
    → a < 2 ^ bits w
    → b < 2 ^ bits w
    → let k = bits w - 1 in
      let r = sub64 a b in
      differs
        (digit k (r % 2 ^ bits w) == 1)
        (min ((digit k a + digit k b) % 2) ((digit k a + digit k r) % 2) == 1)
      ≡ signed_ltb w a b
less_digits w8 a b ha hb = ground arith
less_digits w16 a b ha hb = ground arith
less_digits w32 a b ha hb = ground arith
less_digits w64 a b ha hb = ground arith

zero_difference :
    (w : Width) (a b : ℕ)
    → a < 2 ^ bits w
    → b < 2 ^ bits w
    → (sub64 a b % 2 ^ bits w == 0) ≡ (a == b)
zero_difference w8 a b ha hb = ground arith
zero_difference w16 a b ha hb = ground arith
zero_difference w32 a b ha hb = ground arith
zero_difference w64 a b ha hb = ground arith

unsigned_order :
    (a b : ℕ) → ((ltb a b || (a == b)) ≡ leb a b) × ((not (ltb a b) && not (a == b)) ≡ ltb b a)
unsigned_order a b = (ground arith, ground arith)

signed_order :
    (w : Width) (a b : ℕ)
    → a < 2 ^ bits w
    → b < 2 ^ bits w
    → (((a == b) || signed_ltb w a b) ≡ not (signed_ltb w b a))
      × ((not (a == b) && not (signed_ltb w a b)) ≡ signed_ltb w b a)
signed_order w8 a b ha hb = (ground arith, ground arith)
signed_order w16 a b ha hb = (ground arith, ground arith)
signed_order w32 a b ha hb = (ground arith, ground arith)
signed_order w64 a b ha hb = (ground arith, ground arith)

module _ (w : Width) (s : Cpu) (a b : ℕ) (ha : a < 2 ^ bits w) (hb : b < 2 ^ bits w) where
  abbrev compared : Cpu
  compared = update_flags_sub s a b (sub64 a b) (bits w)

  compared-cf : get_flag compared flag_cf ≡ ltb a b
  compared-cf = (sub_flags s a b (sub64 a b) (bits w)).0

  compared-zf : get_flag compared flag_zf ≡ (a == b)
  compared-zf =
      (sub_flags s a b (sub64 a b) (bits w)).1
      ∙ ap (λ (t : ℕ). t == 0) (cut_low w (sub64 a b))
      ∙ zero_difference w a b ha hb

  compared-less : differs (get_flag compared flag_sf) (get_flag compared flag_of) ≡ signed_ltb w a b
  compared-less =
      ap₂ differs
        ((sub_flags s a b (sub64 a b) (bits w)).2
          ∙ ap (λ (t : ℕ). test_mask t (sign_bit (bits w))) (cut_low w (sub64 a b))
          ∙ sign_test (bits w - 1) _)
        ((sub_flags s a b (sub64 a b) (bits w)).3 ∙ overflow_test (bits w - 1) a b (sub64 a b))
      ∙ less_digits w a b ha hb

  -- After the comparison of two operands of any size, the jumps test what their names say: B and
  -- BE are the unsigned orders, L and LE the signed ones, E is equality, and the odd codes are the
  -- negations.
  pub eval_condition-compared :
      (eval_condition compared 0x2 ≡ ltb a b)
      × (eval_condition compared 0x3 ≡ not (ltb a b))
      × (eval_condition compared 0x4 ≡ (a == b))
      × (eval_condition compared 0x5 ≡ not (a == b))
      × (eval_condition compared 0x6 ≡ leb a b)
      × (eval_condition compared 0x7 ≡ ltb b a)
      × (eval_condition compared 0xC ≡ signed_ltb w a b)
      × (eval_condition compared 0xD ≡ not (signed_ltb w a b))
      × (eval_condition compared 0xE ≡ not (signed_ltb w b a))
      × (eval_condition compared 0xF ≡ signed_ltb w b a)
  unfolding eval_condition
  eval_condition-compared = (
    compared-cf,
    ap not compared-cf,
    compared-zf,
    ap not compared-zf,
    ap₂ ◌||◌ compared-cf compared-zf ∙ (unsigned_order a b).0,
    ap₂ (λ x y. not x && not y) compared-cf compared-zf ∙ (unsigned_order a b).1,
    compared-less,
    ap not compared-less,
    ap₂ ◌||◌ compared-zf compared-less ∙ (signed_order w a b ha hb).0,
    ap₂ (λ x y. not x && not y) compared-zf compared-less ∙ (signed_order w a b ha hb).1,
  )
