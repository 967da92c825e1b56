-- ===== src/X86/State.antt =====
-- Sources/CPU/wg_x86_state.h and wg_x86_state.c: registers and flags. The x87 stack `st` is left
-- out: nothing reads or writes it but the `memset` of the reset.
pub mod Flags
pub mod Compare
pub mod Carry
mod Tests
use wine_glass.Base.{
  ℕ, ◌+◌, ◌-◌, ◌*◌, ◌^◌, ◌<◌, ◌≡◌, Bool, true, false, not, ◌==◌, ltb, leb, if◌then◌else◌, List,
  length, get_elem?, set, replicate, Option, none, some, All, bit_and, bit_or, bit_xor,
}
use wine_glass.Base.Words.{u8, not64, ◌>>>◌, test_mask}

pub record Cpu : Type 0 where
  pub gpr : List ℕ
  pub rip : ℕ
  pub rflags : ℕ
  pub xmm : List (ℕ × ℕ)
  pub mxcsr : ℕ
  pub cs : ℕ
  pub ds : ℕ
  pub es : ℕ
  pub fs : ℕ
  pub gs : ℕ
  pub ss : ℕ
  pub fpu_control : ℕ
  pub fpu_status : ℕ
  pub fpu_top : ℕ
  pub halted : Bool
  pub interrupt_pending : Bool
  pub interrupt_vector : ℕ
  pub instruction_count : ℕ

-- Indices into `gpr`, in the order of `WGx86Reg`.
abbrev pub reg_rax : ℕ
reg_rax = 0

abbrev pub reg_rcx : ℕ
reg_rcx = 1

abbrev pub reg_rdx : ℕ
reg_rdx = 2

abbrev pub reg_rbx : ℕ
reg_rbx = 3

abbrev pub reg_rsp : ℕ
reg_rsp = 4

abbrev pub reg_rbp : ℕ
reg_rbp = 5

abbrev pub reg_count : ℕ
reg_count = 16

-- The masks of `rflags`.
abbrev pub flag_cf : ℕ
flag_cf = 2 ^ 0

abbrev pub flag_pf : ℕ
flag_pf = 2 ^ 2

abbrev pub flag_af : ℕ
flag_af = 2 ^ 4

abbrev pub flag_zf : ℕ
flag_zf = 2 ^ 6

abbrev pub flag_sf : ℕ
flag_sf = 2 ^ 7

abbrev pub flag_if : ℕ
flag_if = 2 ^ 9

abbrev pub flag_df : ℕ
flag_df = 2 ^ 10

abbrev pub flag_of : ℕ
flag_of = 2 ^ 11

unfoldable pub state_reset : Cpu
state_reset = record {
  gpr = replicate reg_count 0;
  rip = 0;
  rflags = bit_or flag_if 0x2;
  xmm = replicate 16 (0, 0);
  mxcsr = 0x1F80;
  cs = 0x33;
  ds = 0x2B;
  es = 0x2B;
  fs = 0;
  gs = 0;
  ss = 0x2B;
  fpu_control = 0x037F;
  fpu_status = 0;
  fpu_top = 0;
  halted = false;
  interrupt_pending = false;
  interrupt_vector = 0;
  instruction_count = 0;
}

-- A register number out of range is ignored by the setter and read as 0.
unfoldable pub set_reg : Cpu → ℕ → ℕ → Cpu
set_reg s r val = if ltb r reg_count then record s { gpr = set s.gpr r val } else s

abbrev pub or_zero : Option ℕ → ℕ
or_zero none = 0
or_zero (some x) = x

unfoldable pub get_reg : Cpu → ℕ → ℕ
get_reg s r = if ltb r reg_count then or_zero (get_elem? s.gpr r) else 0

abbrev pub set_rip : Cpu → ℕ → Cpu
set_rip s rip = record s { rip = rip }

abbrev pub flags_with : ℕ → ℕ → Bool → ℕ
flags_with rflags flag val = if val then bit_or rflags flag else bit_and rflags (not64 flag)

unfoldable pub set_flag : Cpu → ℕ → Bool → Cpu
set_flag s flag val = record s { rflags = flags_with s.rflags flag val }

unfoldable pub get_flag : Cpu → ℕ → Bool
get_flag s flag = test_mask s.rflags flag

-- Whether the number of ones in a byte is even, by folding its halves.
abbrev pub parity : ℕ → Bool
parity v =
    let v4 = bit_xor v (v >>> 4) in
    let v2 = bit_xor v4 (v4 >>> 2) in let v1 = bit_xor v2 (v2 >>> 1) in bit_and v1 1 == 0

abbrev pub sign_bit : ℕ → ℕ
sign_bit bits = 2 ^ (bits - 1)

abbrev pub mask_for_bits : ℕ → ℕ
mask_for_bits bits = if leb 64 bits then 2 ^ 64 - 1 else 2 ^ bits - 1

pub update_flags_add : Cpu → ℕ → ℕ → ℕ → ℕ → Cpu
update_flags_add s a b result bits =
    let m = mask_for_bits bits in
    let sb = sign_bit bits in
    let r = bit_and result m in
    let s1 = set_flag s flag_cf (ltb m result) in
    let s2 = set_flag s1 flag_zf (r == 0) in
    let s3 = set_flag s2 flag_sf (test_mask r sb) in
    let s4 = set_flag s3 flag_of (test_mask (bit_and (bit_xor a result) (bit_xor b result)) sb) in
    let s5 = set_flag s4 flag_af (test_mask (bit_xor (bit_xor a b) result) 0x10) in
    set_flag s5 flag_pf (parity (u8 r))

pub update_flags_sub : Cpu → ℕ → ℕ → ℕ → ℕ → Cpu
update_flags_sub s a b result bits =
    let m = mask_for_bits bits in
    let sb = sign_bit bits in
    let r = bit_and result m in
    let s1 = set_flag s flag_cf (ltb a b) in
    let s2 = set_flag s1 flag_zf (r == 0) in
    let s3 = set_flag s2 flag_sf (test_mask r sb) in
    let s4 = set_flag s3 flag_of (test_mask (bit_and (bit_xor a b) (bit_xor a result)) sb) in
    let s5 = set_flag s4 flag_af (test_mask (bit_xor (bit_xor a b) result) 0x10) in
    set_flag s5 flag_pf (parity (u8 r))

pub update_flags_logic : Cpu → ℕ → ℕ → Cpu
update_flags_logic s result bits =
    let m = mask_for_bits bits in
    let sb = sign_bit bits in
    let r = bit_and result m in
    let s1 = set_flag s flag_cf false in
    let s2 = set_flag s1 flag_of false in
    let s3 = set_flag s2 flag_zf (r == 0) in
    let s4 = set_flag s3 flag_sf (test_mask r sb) in set_flag s4 flag_pf (parity (u8 r))

abbrev pub IsU64 : ℕ → Type 0
IsU64 x = x < 2 ^ 64

abbrev pub IsU64Pair : ℕ × ℕ → Type 0
IsU64Pair p = (p.0 < 2 ^ 64) × (p.1 < 2 ^ 64)

-- The register files have their sizes, and what the later proofs name is a 64-bit value.
pub record IsCpu (s : Cpu) : Type 0 where
  pub gprs : length s.gpr ≡ 16
  pub gpr_fits : All IsU64 s.gpr
  pub rip_fits : s.rip < 2 ^ 64
  pub rflags_fits : s.rflags < 2 ^ 64
  pub xmms : length s.xmm ≡ 16
  pub xmm_fits : All IsU64Pair s.xmm
