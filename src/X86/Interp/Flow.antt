-- ===== src/X86/Interp/Flow.antt =====
-- Sources/CPU/wg_x86_interp.c, `wg_x86_exec_one`: moves, the stack, jumps and calls, and the
-- instructions on fixed registers.
use wine_glass.Base.{
  ℕ, suc, zero, true, false, ◌+◌, ◌-◌, ◌*◌, ◌/◌, ◌%◌, ◌^◌, Bool, ◌&&◌, ◌==◌, ltb, leb,
  if◌then◌else◌, get_elem?, set, length, bit_and, bit_or, bit_xor,
}
use wine_glass.Base.Words.{u32, u64, not64, sext}
use wine_glass.X86.State.{reg_rax, reg_rbx, reg_rcx, reg_rdx, reg_rsp, reg_rbp}
use wine_glass.X86.State.Compare.{eval_condition}
use wine_glass.X86.Decode.Types.{Operand, OperandType, Instruction}
use wine_glass.X86.Interp.Operands.{
  Run, done, fault, Fault, pure, ◌>>=◌, ◌>>◌, get_cpu, get_gpr, put_gpr, extend, read_operand,
  write_operand, compute_ea, push64, pop64, or_fault,
}

-- `WGInterpResult`
pub data InterpResult : Type 0 where
  ok halt syscall error : InterpResult

-- How a case of the switch ends: it breaks with `next_rip`, or it returns, with the `rip` that it
-- has stored.
pub data Next : Type 0 where
  go_on : ℕ → Next
  return_at : ℕ → InterpResult → Next

unfoldable pub exec_mov : Instruction → Run Unit
exec_mov insn = do val ← read_operand insn.op1; write_operand insn.op0 val

unfoldable pub exec_movsx : Instruction → Run Unit
exec_movsx insn = do
  val ← read_operand insn.op1
  sval ← extend val insn.op1.size
  write_operand insn.op0 sval

unfoldable pub exec_lea : Instruction → Run Unit
exec_lea insn = do ea ← compute_ea insn.op1; write_operand insn.op0 ea

unfoldable pub exec_xchg : Instruction → Run Unit
exec_xchg insn = do
  a ← read_operand insn.op0
  b ← read_operand insn.op1
  write_operand insn.op0 b
  write_operand insn.op1 a

unfoldable pub exec_push : Instruction → Run Unit
exec_push insn = do val ← read_operand insn.op0; push64 val

unfoldable pub exec_pop : Instruction → Run Unit
exec_pop insn = do val ← pop64; write_operand insn.op0 val

abbrev pub is_rel : OperandType → Bool
is_rel OperandType.rel = true
is_rel OperandType.reg = false
is_rel OperandType.mem = false
is_rel OperandType.imm = false
is_rel OperandType.no_operand = false

abbrev pub is_reg : OperandType → Bool
is_reg OperandType.reg = true
is_reg OperandType.rel = false
is_reg OperandType.mem = false
is_reg OperandType.imm = false
is_reg OperandType.no_operand = false

-- Where a jump or a call goes.
unfoldable pub jump_target : Operand → Run ℕ
jump_target op = if is_rel op.kind then pure op.imm else read_operand op

unfoldable pub exec_jcc : Instruction → ℕ → Run ℕ
exec_jcc insn next_rip = do
  cpu ← get_cpu
  pure (if eval_condition cpu insn.condition then insn.op0.imm else next_rip)

-- The addresses that stand for the functions of Win32.
abbrev pub is_thunk : ℕ → Bool
is_thunk addr = leb 0xDEAD0000 addr && ltb addr 0xDEAF0000

-- A call of a thunk takes the return address off the stack again.
unfoldable pub exec_call : Instruction → ℕ → Run Next
exec_call insn next_rip = do
  push64 next_rip
  target ← jump_target insn.op0
  if is_thunk target
      then (do back ← pop64; pure (return_at back InterpResult.syscall))
      else pure (go_on target)

unfoldable pub drop_arguments : Instruction → Run Unit
drop_arguments insn =
    if insn.num_operands == 0
    then pure tt
    else (do rsp ← get_gpr reg_rsp; put_gpr reg_rsp (u64 (rsp + insn.op0.imm)))

unfoldable pub exec_ret : Instruction → Run Next
exec_ret insn = do
  target ← pop64
  drop_arguments insn
  pure (if target == 0 then return_at target InterpResult.halt else go_on target)

unfoldable pub exec_leave : Run Unit
exec_leave = do rbp ← get_gpr reg_rbp; put_gpr reg_rsp rbp; old ← pop64; put_gpr reg_rbp old

unfoldable pub exec_cmovcc : Instruction → Run Unit
exec_cmovcc insn = do
  cpu ← get_cpu
  if eval_condition cpu insn.condition then exec_mov insn else pure tt

unfoldable pub exec_setcc : Instruction → Run Unit
exec_setcc insn = do
  cpu ← get_cpu
  write_operand insn.op0 (if eval_condition cpu insn.condition then 1 else 0)

abbrev pub high_half : ℕ → ℕ
high_half v = bit_and v (not64 0xFFFFFFFF)

unfoldable pub exec_cdq : Run Unit
exec_cdq = do
  rax ← get_gpr reg_rax
  rdx ← get_gpr reg_rdx
  put_gpr reg_rdx
      (if leb (2 ^ 31) (u32 rax) then bit_or (high_half rdx) 0xFFFFFFFF else high_half rdx)

unfoldable pub exec_cqo : Run Unit
exec_cqo = do rax ← get_gpr reg_rax; put_gpr reg_rdx (if leb (2 ^ 63) rax then 2 ^ 64 - 1 else 0)

unfoldable pub exec_cdqe : Run Unit
exec_cdqe = do rax ← get_gpr reg_rax; put_gpr reg_rax (sext 32 (bit_and rax 0xFFFFFFFF))

unfoldable pub exec_cwde : Run Unit
exec_cwde = do
  rax ← get_gpr reg_rax
  put_gpr reg_rax (bit_or (high_half rax) (u32 (sext 16 (bit_and rax 0xFFFF))))

-- `__builtin_bswap64` and `__builtin_bswap32`: the bytes in the opposite order.
abbrev pub swap_bytes : ℕ → ℕ → ℕ
swap_bytes zero v = 0
swap_bytes (suc n) v = v % 256 * 256 ^ n + swap_bytes n (v / 256)

unfoldable pub exec_bswap : Instruction → Run Unit
exec_bswap insn = do
  val ← get_gpr insn.op0.reg_index
  put_gpr insn.op0.reg_index
      (if insn.op_size == 8 then swap_bytes 8 val else swap_bytes 4 (u32 val))

abbrev pub put_four : ℕ → ℕ → ℕ → ℕ → Run Unit
put_four a b c d = do put_gpr reg_rax a; put_gpr reg_rbx b; put_gpr reg_rcx c; put_gpr reg_rdx d

unfoldable pub exec_cpuid : Run Unit
exec_cpuid = do
  rax ← get_gpr reg_rax
  if u32 rax == 0
      then put_four 0x16 0x656E6957 0x00007373 0x73616C47
      else if u32 rax == 1
      then put_four 0x000906EA 0x00100800 0x7FFAFBBF 0xBFEBFBFF
      else put_four 0 0 0 0

abbrev pub get_xmm : ℕ → Run (ℕ × ℕ)
get_xmm r s = or_fault Fault.bad_register (get_elem? s.cpu.xmm r) s

abbrev pub put_xmm : ℕ → ℕ × ℕ → Run Unit
put_xmm r v s =
    if ltb r (length s.cpu.xmm)
    then done tt (record s { cpu = record s.cpu { xmm = set s.cpu.xmm r v } })
    else fault Fault.bad_register

unfoldable pub exec_xorps : Instruction → Run Unit
exec_xorps insn =
    if is_reg insn.op1.kind
    then (do
      a ← get_xmm insn.op0.reg_index
      b ← get_xmm insn.op1.reg_index
      put_xmm insn.op0.reg_index (bit_xor a.0 b.0, bit_xor a.1 b.1))
    else pure tt
