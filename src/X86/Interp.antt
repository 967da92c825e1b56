-- ===== src/X86/Interp.antt =====
-- Sources/CPU/wg_x86_interp.c: `wg_x86_exec_one` and `wg_x86_exec_block`. The log calls are left
-- out.
pub mod Operands
pub mod Arith
pub mod Flow
pub mod Safe
pub mod Registers
pub mod Stack
pub mod Jumps
pub mod Blocks
pub mod Moves
mod Tests
use wine_glass.Base.{
  ℕ, zero, suc, ◌+◌, Bool, true, false, not, ◌==◌, if◌then◌else◌, Option, none, some, List, [], ◌∷◌,
  bit_and, bit_or, bit_xor,
}
use wine_glass.Base.Words.{u64}
use wine_glass.Memory.{memory_read_u8}
use wine_glass.X86.State.{flag_cf, flag_df, set_flag, get_flag, set_rip}
use wine_glass.X86.Decode.Types.{Instruction, Opcode}
use wine_glass.X86.Decode.{decode}
use Operands.{
  Run, Machine, Result, done, fault, Fault, pure, ◌>>=◌, ◌>>◌, get_cpu, put_cpu, read_mem, or_fault,
}
use Arith.{
  set_flags, carry_flag, exec_add, exec_sub, exec_cmp, exec_logic, exec_not, exec_neg, exec_inc,
  exec_dec, exec_test, exec_shl, exec_shr, exec_sar, exec_imul,
}
use Flow.{
  InterpResult, Next, go_on, return_at, exec_mov, exec_movsx, exec_lea, exec_xchg, exec_push,
  exec_pop, jump_target, exec_jcc, exec_call, exec_ret, exec_leave, exec_cmovcc, exec_setcc,
  exec_cdq, exec_cqo, exec_cdqe, exec_cwde, exec_bswap, exec_cpuid, exec_xorps,
}

unfoldable pub exec_cmc : Run Unit
exec_cmc = do cpu ← get_cpu; carry_flag (not (get_flag cpu flag_cf))

-- The cases that fall through to the next instruction. The opcodes that the switch does not name
-- are logged and skipped.
unfoldable pub exec_plain : Opcode → Instruction → Run Unit
exec_plain Opcode.mov insn = exec_mov insn
exec_plain Opcode.movzx insn = exec_mov insn
exec_plain Opcode.movsx insn = exec_movsx insn
exec_plain Opcode.lea insn = exec_lea insn
exec_plain Opcode.xchg insn = exec_xchg insn
exec_plain Opcode.push insn = exec_push insn
exec_plain Opcode.pop insn = exec_pop insn
exec_plain Opcode.add insn = exec_add insn
exec_plain Opcode.sub insn = exec_sub insn
exec_plain Opcode.cmp insn = exec_cmp insn
exec_plain Opcode.and insn = exec_logic bit_and insn
exec_plain Opcode.or insn = exec_logic bit_or insn
exec_plain Opcode.xor insn = exec_logic bit_xor insn
exec_plain Opcode.not insn = exec_not insn
exec_plain Opcode.neg insn = exec_neg insn
exec_plain Opcode.inc insn = exec_inc insn
exec_plain Opcode.dec insn = exec_dec insn
exec_plain Opcode.test insn = exec_test insn
exec_plain Opcode.shl insn = exec_shl insn
exec_plain Opcode.shr insn = exec_shr insn
exec_plain Opcode.sar insn = exec_sar insn
exec_plain Opcode.imul insn = exec_imul insn
exec_plain Opcode.leave insn = exec_leave
exec_plain Opcode.cmovcc insn = exec_cmovcc insn
exec_plain Opcode.setcc insn = exec_setcc insn
exec_plain Opcode.cdq insn = exec_cdq
exec_plain Opcode.cqo insn = exec_cqo
exec_plain Opcode.cdqe insn = exec_cdqe
exec_plain Opcode.cwde insn = exec_cwde
exec_plain Opcode.bswap insn = exec_bswap insn
exec_plain Opcode.cpuid insn = exec_cpuid
exec_plain Opcode.xorps insn = exec_xorps insn
exec_plain Opcode.clc insn = carry_flag false
exec_plain Opcode.stc insn = carry_flag true
exec_plain Opcode.cmc insn = exec_cmc
exec_plain Opcode.cld insn = set_flags λ cpu. set_flag cpu flag_df false
exec_plain Opcode.std insn = set_flags λ cpu. set_flag cpu flag_df true
exec_plain _ insn = pure tt

-- The switch. An unknown opcode returns without a new `rip`.
unfoldable pub exec_op : Opcode → Instruction → ℕ → ℕ → Run Next
exec_op Opcode.jmp insn rip next_rip = do target ← jump_target insn.op0; pure (go_on target)
exec_op Opcode.jcc insn rip next_rip = do target ← exec_jcc insn next_rip; pure (go_on target)
exec_op Opcode.call insn rip next_rip = exec_call insn next_rip
exec_op Opcode.ret insn rip next_rip = exec_ret insn
exec_op Opcode.hlt insn rip next_rip = pure (return_at next_rip InterpResult.halt)
exec_op Opcode.syscall insn rip next_rip = pure (return_at next_rip InterpResult.syscall)
exec_op Opcode.int insn rip next_rip = pure (return_at next_rip InterpResult.syscall)
exec_op Opcode.unknown insn rip next_rip = pure (return_at rip InterpResult.error)
exec_op op insn rip next_rip = do exec_plain op insn; pure (go_on next_rip)

-- `n` bytes of code from an address on.
abbrev pub fetch_code : ℕ → ℕ → Run (List ℕ)
fetch_code zero addr = pure []
fetch_code (suc n) addr = do
  b ← read_mem memory_read_u8 addr
  bs ← fetch_code n (u64 (addr + 1))
  pure (b ∷ bs)

abbrev pub leave_at : Next → Run InterpResult
leave_at (go_on rip) = do cpu ← get_cpu; put_cpu (set_rip cpu rip); pure InterpResult.ok
leave_at (return_at rip r) = do cpu ← get_cpu; put_cpu (set_rip cpu rip); pure r

abbrev pub exec_decoded : ℕ × Instruction → Run InterpResult
exec_decoded (len, insn) = if len == 0 then pure InterpResult.error else (do
  cpu ← get_cpu
  put_cpu (record cpu { instruction_count = u64 (cpu.instruction_count + 1) })
  next ← exec_op insn.opcode insn cpu.rip (u64 (cpu.rip + len))
  leave_at next)

unfoldable pub exec_one : Run InterpResult
exec_one = do
  cpu ← get_cpu
  buf ← fetch_code 16 cpu.rip
  decoded ← or_fault Fault.over_read (decode buf 16 cpu.rip)
  exec_decoded decoded

abbrev pub is_ok : InterpResult → Bool
is_ok InterpResult.ok = true
is_ok InterpResult.halt = false
is_ok InterpResult.syscall = false
is_ok InterpResult.error = false

-- At most `max_insns` instructions, up to the first that does not end with `ok`.
unfoldable pub exec_block : ℕ → Run InterpResult
exec_block zero = pure InterpResult.ok
exec_block (suc n) = do r ← exec_one; if is_ok r then exec_block n else pure r
