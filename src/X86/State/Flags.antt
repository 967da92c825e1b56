-- ===== src/X86/State/Flags.antt =====
-- Single flags of `rflags`: what `set_flag` does to each, and that the updates keep a valid state.
use native.Mathlib.Nat.{pow-suc, one-le-pow, pow-le-pow_right}
use wine_glass.Base.{
  ℕ, suc, ◌^◌, ◌<◌, ◌≡◌, refl, ◌∙◌, Bool, true, false, ◌==◌, if◌then◌else◌, All-replicate, arith,
  ltb, ltb→lt, bit_xor, bit_and,
}
use wine_glass.Base.Words.{test_mask, not64, u8}
use wine_glass.Base.Bits.{
  bit_at, bit_at-le, bit_at-and, bit_at-or, bit_at-not, bit_at-pow, test_mask-pow, bit_and-lt,
  bit_or-lt,
}
use wine_glass.X86.State.{
  state_reset, IsU64, IsU64Pair, flag_if, flag_cf, flag_zf, flag_sf, flag_of, flag_af, flag_pf, Cpu,
  IsCpu, flags_with, set_flag, get_flag, mask_for_bits, sign_bit, parity, update_flags_add,
  update_flags_sub, update_flags_logic,
}

pow-fits : (k : ℕ) → k < 64 → 2 ^ k < 2 ^ 64
pow-fits k h = omega (
  arith,
  pow-suc 2 k,
  one-le-pow k 2,
  pow-le-pow_right {n = 2} (omega arith) {i = suc k} {j = 64} h,
)

flags_with-bit :
    (k j f : ℕ) (v : Bool)
    → k < 64
    → j < 64
    → bit_at j (flags_with f (2 ^ k) v) ≡ (if k == j then (if v then 1 else 0) else bit_at j f)
flags_with-bit k j f true hk hj =
    ground (arith, bit_at-or j f (2 ^ k), bit_at-pow j k, bit_at-le j f)
flags_with-bit k j f false hk hj = ground (
  arith,
  bit_at-and j f (not64 (2 ^ k)),
  bit_at-not 64 j (2 ^ k) (pow-fits k hk) hj,
  bit_at-pow j k,
  bit_at-le j f,
)

flags_with-test :
    (k j f : ℕ) (v : Bool)
    → k < 64
    → j < 64
    → test_mask (flags_with f (2 ^ k) v) (2 ^ j) ≡ (if k == j then v else test_mask f (2 ^ j))
flags_with-test k j f v hk hj =
    rw (test_mask-pow j (flags_with f (2 ^ k) v), test_mask-pow j f, flags_with-bit k j f v hk hj)
      (read v)
  where
    read :
        (v : Bool)
        → ((if k == j then (if v then 1 else 0) else bit_at j f) == 1)
          ≡ (if k == j then v else (bit_at j f == 1))
    read true = ground arith
    read false = ground arith

-- A flag at any of the 64 bits reads back as it was set, and the other bits read as before.
pub get_flag-set_flag :
    (k j : ℕ) (s : Cpu) (v : Bool)
    → k < 64
    → j < 64
    → get_flag (set_flag s (2 ^ k) v) (2 ^ j) ≡ (if k == j then v else get_flag s (2 ^ j))
unfolding get_flag set_flag
get_flag-set_flag k j s v hk hj = flags_with-test k j s.rflags v hk hj

-- The same at numerals, where the bounds are tests that compute.
flag_at :
    (k j : ℕ) (s : Cpu) (v : Bool)
    → ltb k 64 ≡ true
    → ltb j 64 ≡ true
    → get_flag (set_flag s (2 ^ k) v) (2 ^ j) ≡ (if k == j then v else get_flag s (2 ^ j))
flag_at k j s v hk hj = get_flag-set_flag k j s v (ltb→lt k 64 hk) (ltb→lt j 64 hj)

-- The six flags of an addition or a subtraction, in the order in which they are set.
abbrev set_six : Cpu → Bool → Bool → Bool → Bool → Bool → Bool → Cpu
set_six s c z n o a p =
    set_flag
      (set_flag
        (set_flag (set_flag (set_flag (set_flag s flag_cf c) flag_zf z) flag_sf n) flag_of o)
        flag_af a)
      flag_pf p

module _ (s : Cpu) (c z n o a p : Bool) where
  abbrev s1 : Cpu
  s1 = set_flag s flag_cf c

  abbrev s2 : Cpu
  s2 = set_flag s1 flag_zf z

  abbrev s3 : Cpu
  s3 = set_flag s2 flag_sf n

  abbrev s4 : Cpu
  s4 = set_flag s3 flag_of o

  abbrev s5 : Cpu
  s5 = set_flag s4 flag_af a

  set_six-zf : get_flag (set_six s c z n o a p) flag_zf ≡ z
  set_six-zf =
      flag_at 2 6 s5 p refl refl
      ∙ flag_at 4 6 s4 a refl refl
      ∙ flag_at 11 6 s3 o refl refl
      ∙ flag_at 7 6 s2 n refl refl
      ∙ flag_at 6 6 s1 z refl refl

  set_six-cf : get_flag (set_six s c z n o a p) flag_cf ≡ c
  set_six-cf =
      flag_at 2 0 s5 p refl refl
      ∙ flag_at 4 0 s4 a refl refl
      ∙ flag_at 11 0 s3 o refl refl
      ∙ flag_at 7 0 s2 n refl refl
      ∙ flag_at 6 0 s1 z refl refl
      ∙ flag_at 0 0 s c refl refl

  set_six-sf : get_flag (set_six s c z n o a p) flag_sf ≡ n
  set_six-sf =
      flag_at 2 7 s5 p refl refl
      ∙ flag_at 4 7 s4 a refl refl
      ∙ flag_at 11 7 s3 o refl refl
      ∙ flag_at 7 7 s2 n refl refl

  set_six-of : get_flag (set_six s c z n o a p) flag_of ≡ o
  set_six-of =
      flag_at 2 11 s5 p refl refl ∙ flag_at 4 11 s4 a refl refl ∙ flag_at 11 11 s3 o refl refl

  set_six-pf : get_flag (set_six s c z n o a p) flag_pf ≡ p
  set_six-pf = flag_at 2 2 s5 p refl refl

-- What the two updates leave in each flag that a condition looks at.
module _ (s : Cpu) (a b r bits : ℕ) where
  abbrev cut : ℕ
  cut = bit_and r (mask_for_bits bits)

  abbrev sub_of : Bool
  sub_of = test_mask (bit_and (bit_xor a b) (bit_xor a r)) (sign_bit bits)

  abbrev add_of : Bool
  add_of = test_mask (bit_and (bit_xor a r) (bit_xor b r)) (sign_bit bits)

  abbrev half_carry : Bool
  half_carry = test_mask (bit_xor (bit_xor a b) r) 0x10

  pub sub_flags :
      (get_flag (update_flags_sub s a b r bits) flag_cf ≡ ltb a b)
      × (get_flag (update_flags_sub s a b r bits) flag_zf ≡ (cut == 0))
      × (get_flag (update_flags_sub s a b r bits) flag_sf ≡ test_mask cut (sign_bit bits))
      × (get_flag (update_flags_sub s a b r bits) flag_of ≡ sub_of)
      × (get_flag (update_flags_sub s a b r bits) flag_pf ≡ parity (u8 cut))
  unfolding update_flags_sub
  sub_flags =
      let n = test_mask cut (sign_bit bits) in
      let p = parity (u8 cut) in
      (
        set_six-cf s (ltb a b) (cut == 0) n sub_of half_carry p,
        set_six-zf s (ltb a b) (cut == 0) n sub_of half_carry p,
        set_six-sf s (ltb a b) (cut == 0) n sub_of half_carry p,
        set_six-of s (ltb a b) (cut == 0) n sub_of half_carry p,
        set_six-pf s (ltb a b) (cut == 0) n sub_of half_carry p,
      )

  pub add_flags :
      (get_flag (update_flags_add s a b r bits) flag_cf ≡ ltb (mask_for_bits bits) r)
      × (get_flag (update_flags_add s a b r bits) flag_zf ≡ (cut == 0))
      × (get_flag (update_flags_add s a b r bits) flag_sf ≡ test_mask cut (sign_bit bits))
      × (get_flag (update_flags_add s a b r bits) flag_of ≡ add_of)
      × (get_flag (update_flags_add s a b r bits) flag_pf ≡ parity (u8 cut))
  unfolding update_flags_add
  add_flags =
      let c = ltb (mask_for_bits bits) r in
      let n = test_mask cut (sign_bit bits) in
      let p = parity (u8 cut) in
      (
        set_six-cf s c (cut == 0) n add_of half_carry p,
        set_six-zf s c (cut == 0) n add_of half_carry p,
        set_six-sf s c (cut == 0) n add_of half_carry p,
        set_six-of s c (cut == 0) n add_of half_carry p,
        set_six-pf s c (cut == 0) n add_of half_carry p,
      )

-- The state stays valid, whatever is written to a flag.
pub set_flag-IsCpu : (k : ℕ) (s : Cpu) (v : Bool) → k < 64 → IsCpu s → IsCpu (set_flag s (2 ^ k) v)
unfolding set_flag
set_flag-IsCpu k s v hk h = record {
  gprs = h.gprs;
  gpr_fits = h.gpr_fits;
  rip_fits = h.rip_fits;
  rflags_fits = fits v;
  xmms = h.xmms;
  xmm_fits = h.xmm_fits;
}
  where
    fits : (v : Bool) → flags_with s.rflags (2 ^ k) v < 2 ^ 64
    fits true = bit_or-lt 64 s.rflags (2 ^ k) h.rflags_fits (pow-fits k hk)
    fits false = bit_and-lt 64 s.rflags (not64 (2 ^ k)) h.rflags_fits

flag_fits : (k : ℕ) (s : Cpu) (v : Bool) → ltb k 64 ≡ true → IsCpu s → IsCpu (set_flag s (2 ^ k) v)
flag_fits k s v hk h = set_flag-IsCpu k s v (ltb→lt k 64 hk) h

set_six-IsCpu : (s : Cpu) (c z n o a p : Bool) → IsCpu s → IsCpu (set_six s c z n o a p)
set_six-IsCpu s c z n o a p h = flag_fits 2 _ p refl (
    flag_fits 4 _ a refl (
      flag_fits 11 _ o refl (flag_fits 7 _ n refl (flag_fits 6 _ z refl (flag_fits 0 s c refl h)))))

pub update_flags_sub-IsCpu :
    (s : Cpu) (a b r bits : ℕ) → IsCpu s → IsCpu (update_flags_sub s a b r bits)
unfolding update_flags_sub
update_flags_sub-IsCpu s a b r bits h = set_six-IsCpu s _ _ _ _ _ _ h

pub update_flags_add-IsCpu :
    (s : Cpu) (a b r bits : ℕ) → IsCpu s → IsCpu (update_flags_add s a b r bits)
unfolding update_flags_add
update_flags_add-IsCpu s a b r bits h = set_six-IsCpu s _ _ _ _ _ _ h

pub update_flags_logic-IsCpu :
    (s : Cpu) (r bits : ℕ) → IsCpu s → IsCpu (update_flags_logic s r bits)
unfolding update_flags_logic
update_flags_logic-IsCpu s r bits h = flag_fits 2 _ _ refl (
    flag_fits 7 _ _ refl
      (flag_fits 6 _ _ refl (flag_fits 11 _ false refl (flag_fits 0 s false refl h))))

pub state_reset-IsCpu : IsCpu state_reset
unfolding state_reset
state_reset-IsCpu = record {
  gprs = refl;
  gpr_fits = All-replicate IsU64 16 0 (omega arith);
  rip_fits = omega arith;
  rflags_fits = bit_or-lt 64 flag_if 0x2 (omega arith) (omega arith);
  xmms = refl;
  xmm_fits = All-replicate IsU64Pair 16 (0, 0) (omega arith, omega arith);
}
