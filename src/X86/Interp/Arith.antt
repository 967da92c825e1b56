-- ===== src/X86/Interp/Arith.antt =====
-- Sources/CPU/wg_x86_interp.c, `wg_x86_exec_one`: arithmetic, logic, shifts and products. Signed
-- values are 64-bit patterns.
use wine_glass.Base.{
  ℕ, ◌+◌, ◌-◌, ◌*◌, ◌^◌, Bool, ◌==◌, ltb, leb, if◌then◌else◌, Option, none, some, bit_and,
}
use wine_glass.Base.Words.{u64, not64, sub64, ◌<<<◌, ◌>>>◌}
use wine_glass.X86.State.{
  Cpu, flag_cf, set_flag, get_flag, update_flags_add, update_flags_sub, update_flags_logic, reg_rax,
  reg_rdx,
}
use wine_glass.X86.State.Compare.{differs}
use wine_glass.X86.Decode.Types.{Operand, Instruction}
use wine_glass.X86.Interp.Operands.{
  Run, Fault, pure, raise, ◌>>=◌, ◌>>◌, get_cpu, put_cpu, get_gpr, put_gpr, mask_for, extend,
  or_fault, read_operand, write_operand,
}

-- The flags are computed at the instruction's operand size.
abbrev pub flag_bits : Instruction → ℕ
flag_bits insn = insn.op_size * 8

unfoldable pub set_flags : (Cpu → Cpu) → Run Unit
set_flags f = do cpu ← get_cpu; put_cpu (f cpu)

abbrev pub add_flags : ℕ → ℕ → ℕ → ℕ → Run Unit
add_flags a b r bits = set_flags λ cpu. update_flags_add cpu a b r bits

abbrev pub sub_flags : ℕ → ℕ → ℕ → ℕ → Run Unit
sub_flags a b r bits = set_flags λ cpu. update_flags_sub cpu a b r bits

abbrev pub logic_flags : ℕ → ℕ → Run Unit
logic_flags r bits = set_flags λ cpu. update_flags_logic cpu r bits

abbrev pub carry_flag : Bool → Run Unit
carry_flag v = set_flags λ cpu. set_flag cpu flag_cf v

-- The second operand, extended where it is the smaller.
unfoldable pub second_operand : Instruction → Run ℕ
second_operand insn = do
  b ← read_operand insn.op1
  if ltb insn.op1.size insn.op0.size then extend b insn.op1.size else pure b

unfoldable pub exec_add : Instruction → Run Unit
exec_add insn = do
  a ← read_operand insn.op0
  b ← second_operand insn
  write_operand insn.op0 (u64 (a + b))
  add_flags a b (u64 (a + b)) (flag_bits insn)

unfoldable pub exec_sub : Instruction → Run Unit
exec_sub insn = do
  a ← read_operand insn.op0
  b ← second_operand insn
  write_operand insn.op0 (sub64 a b)
  sub_flags a b (sub64 a b) (flag_bits insn)

unfoldable pub exec_cmp : Instruction → Run Unit
exec_cmp insn = do
  a ← read_operand insn.op0
  b ← second_operand insn
  sub_flags a b (sub64 a b) (flag_bits insn)

-- AND, OR and XOR.
unfoldable pub exec_logic : (ℕ → ℕ → ℕ) → Instruction → Run Unit
exec_logic f insn = do
  a ← read_operand insn.op0
  b ← second_operand insn
  write_operand insn.op0 (f a b)
  logic_flags (f a b) (flag_bits insn)

unfoldable pub exec_not : Instruction → Run Unit
exec_not insn = do val ← read_operand insn.op0; write_operand insn.op0 (not64 val)

unfoldable pub exec_neg : Instruction → Run Unit
exec_neg insn = do
  val ← read_operand insn.op0
  write_operand insn.op0 (u64 (not64 val + 1))
  sub_flags 0 val (u64 (not64 val + 1)) (flag_bits insn)

-- The carry flag is put back.
unfoldable pub exec_inc : Instruction → Run Unit
exec_inc insn = do
  val ← read_operand insn.op0
  write_operand insn.op0 (u64 (val + 1))
  cpu ← get_cpu
  add_flags val 1 (u64 (val + 1)) (flag_bits insn)
  carry_flag (get_flag cpu flag_cf)

unfoldable pub exec_dec : Instruction → Run Unit
exec_dec insn = do
  val ← read_operand insn.op0
  write_operand insn.op0 (sub64 val 1)
  cpu ← get_cpu
  sub_flags val 1 (sub64 val 1) (flag_bits insn)
  carry_flag (get_flag cpu flag_cf)

unfoldable pub exec_test : Instruction → Run Unit
exec_test insn = do
  a ← read_operand insn.op0
  b ← read_operand insn.op1
  logic_flags (bit_and a b) (flag_bits insn)

-- `(val >> (bits - count)) & 1`; for a count above `bits` the difference wraps and the shift is
-- undefined.
abbrev pub shl_carry : ℕ → ℕ → ℕ → Run Unit
shl_carry val count bits =
    if ltb bits count
    then raise Fault.bad_shift
    else carry_flag (bit_and (val >>> (bits - count)) 1 == 1)

abbrev pub shift_left : Instruction → ℕ → ℕ → Run Unit
shift_left insn val count = do
  write_operand insn.op0 (u64 (val <<< count))
  logic_flags (u64 (val <<< count)) (flag_bits insn)
  shl_carry val count (flag_bits insn)

abbrev pub shift_right : Instruction → ℕ → ℕ → ℕ → Run Unit
shift_right insn val count r = do
  write_operand insn.op0 r
  logic_flags r (flag_bits insn)
  carry_flag (bit_and (val >>> (count - 1)) 1 == 1)

-- `>>` of a negative `int64_t` shifts copies of the sign in.
unfoldable pub sar64 : ℕ → ℕ → ℕ
sar64 x count = if ltb x (2 ^ 63) then x >>> count else (x >>> count) + (2 ^ 64 - 2 ^ (64 - count))

unfoldable pub exec_shl : Instruction → Run Unit
exec_shl insn = do
  val ← read_operand insn.op0
  by ← read_operand insn.op1
  if bit_and by 0x3F == 0 then pure tt else shift_left insn val (bit_and by 0x3F)

unfoldable pub exec_shr : Instruction → Run Unit
exec_shr insn = do
  val ← read_operand insn.op0
  by ← read_operand insn.op1
  if bit_and by 0x3F == 0
      then pure tt
      else shift_right insn val (bit_and by 0x3F)
          (bit_and val (mask_for insn.op_size) >>> bit_and by 0x3F)

unfoldable pub exec_sar : Instruction → Run Unit
exec_sar insn = do
  val ← read_operand insn.op0
  by ← read_operand insn.op1
  if bit_and by 0x3F == 0 then pure tt else (do
    sval ← extend val insn.op_size
    shift_right insn val (bit_and by 0x3F) (sar64 sval (bit_and by 0x3F)))

abbrev pub is_negative : ℕ → Bool
is_negative x = leb (2 ^ 63) x

abbrev pub magnitude : ℕ → ℕ
magnitude x = if is_negative x then 2 ^ 64 - x else x

-- `(__int128)a * b`, as a 128-bit pattern.
unfoldable pub product128 : ℕ → ℕ → ℕ
product128 a b =
    let p = magnitude a * magnitude b in
    if p == 0 then 0 else if differs (is_negative a) (is_negative b) then 2 ^ 128 - p else p

-- `a * b` of two `int64_t`: undefined where it does not fit.
unfoldable pub product64 : ℕ → ℕ → Option ℕ
product64 a b =
    let p = magnitude a * magnitude b in
    if differs (is_negative a) (is_negative b)
    then (if leb p (2 ^ 63) then some (u64 (2 ^ 64 - p)) else none)
    else if ltb p (2 ^ 63)
    then some p
    else none

abbrev pub imul_operands : Instruction → Operand → Operand → Run Unit
imul_operands insn x y = do
  v ← read_operand x
  a ← extend v insn.op_size
  w ← read_operand y
  b ← extend w insn.op_size
  r ← or_fault Fault.signed_overflow (product64 a b)
  write_operand insn.op0 r

abbrev pub imul_wide : Instruction → Run Unit
imul_wide insn = do
  rax ← get_gpr reg_rax
  a ← extend rax insn.op_size
  v ← read_operand insn.op0
  b ← extend v insn.op_size
  put_gpr reg_rax (bit_and (u64 (product128 a b)) (mask_for insn.op_size))
  put_gpr reg_rdx (bit_and (u64 (product128 a b >>> (insn.op_size * 8))) (mask_for insn.op_size))

unfoldable pub exec_imul : Instruction → Run Unit
exec_imul insn =
    if insn.num_operands == 1
    then imul_wide insn
    else if insn.num_operands == 2
    then imul_operands insn insn.op0 insn.op1
    else imul_operands insn insn.op1 insn.op2
