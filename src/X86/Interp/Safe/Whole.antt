-- ===== src/X86/Interp/Safe/Whole.antt =====
-- Valid machines under `wg_x86_exec_one` and `wg_x86_exec_block`.
use mathlib.Core.Path.{subst}
use wine_glass.Base.{
  ℕ, zero, suc, ◌+◌, ◌<◌, ◌^◌, ◌≡◌, ◌≢◌, Bool-cases, ◌⊎◌, inl, inr, refl, Bool, ◌==◌, some, arith,
  List, [], length, All, bit_and, bit_or, bit_xor,
}
use wine_glass.Base.Words.{u64}
use wine_glass.Base.Bits.{bit_and-lt, bit_or-lt, bit_xor-lt}
use wine_glass.Memory.Valid.{IsByte}
use wine_glass.X86.State.{Cpu, IsCpu, flag_df, set_flag, set_rip}
use wine_glass.X86.State.Flags.{set_flag-IsCpu}
use wine_glass.X86.Decode.Types.{Opcode, Instruction, IsInstruction}
use wine_glass.X86.Decode.{decode}
use wine_glass.X86.Decode.Safe.Whole.{Decoded, decode-Decoded}
use wine_glass.X86.Interp.Operands.{Machine, Fault}
use wine_glass.X86.Interp.Arith.{set_flags}
use wine_glass.X86.Interp.Flow.{Next, go_on, return_at}
use wine_glass.X86.Interp.{
  exec_cmc, exec_plain, exec_op, fetch_code, leave_at, exec_decoded, exec_one, is_ok, exec_block,
}
use wine_glass.X86.Interp.Safe.{
  Any, Keeps, IsMachine, Outcome, Keeps-pure, Keeps-if, Keeps-or_fault, Keeps-bind, Keeps-then,
  get_cpu-Keeps, put_cpu-Keeps, read_mem-Keeps,
}
use wine_glass.X86.Interp.Safe.Arith.{
  set_flags-Keeps, carry_flag-Keeps, exec_add-Keeps, exec_sub-Keeps, exec_cmp-Keeps,
  exec_logic-Keeps, exec_not-Keeps, exec_neg-Keeps, exec_inc-Keeps, exec_dec-Keeps, exec_test-Keeps,
  exec_shl-Keeps, exec_shr-Keeps, exec_sar-Keeps, exec_imul-Keeps,
}
use wine_glass.X86.Interp.Safe.Flow.{
  exec_mov-Keeps, exec_movsx-Keeps, exec_lea-Keeps, exec_xchg-Keeps, exec_push-Keeps,
  exec_pop-Keeps, jump_target-Keeps, exec_jcc-Keeps, exec_call-Keeps, exec_ret-Keeps,
  exec_cmovcc-Keeps, exec_setcc-Keeps, exec_bswap-Keeps, exec_xorps-Keeps, exec_leave-Keeps,
  exec_cdq-Keeps, exec_cqo-Keeps, exec_cdqe-Keeps, exec_cwde-Keeps, exec_cpuid-Keeps, IsNext,
}

exec_cmc-Keeps : Keeps Any exec_cmc
unfolding exec_cmc
exec_cmc-Keeps = Keeps-bind _ _ get_cpu-Keeps λ cpu h. carry_flag-Keeps _

direction-Keeps : (b : Bool) → Keeps Any (set_flags λ cpu. set_flag cpu flag_df b)
direction-Keeps b = set_flags-Keeps _ λ cpu. set_flag-IsCpu 10 cpu b (omega arith)

module _ (insn : Instruction) (v : IsInstruction insn) where
  exec_plain-Keeps : (op : Opcode) → Keeps Any (exec_plain op insn)
  unfolding exec_plain
  exec_plain-Keeps Opcode.mov = exec_mov-Keeps insn v
  exec_plain-Keeps Opcode.movzx = exec_mov-Keeps insn v
  exec_plain-Keeps Opcode.movsx = exec_movsx-Keeps insn v
  exec_plain-Keeps Opcode.lea = exec_lea-Keeps insn v
  exec_plain-Keeps Opcode.xchg = exec_xchg-Keeps insn v
  exec_plain-Keeps Opcode.push = exec_push-Keeps insn v
  exec_plain-Keeps Opcode.pop = exec_pop-Keeps insn v
  exec_plain-Keeps Opcode.add = exec_add-Keeps insn v
  exec_plain-Keeps Opcode.sub = exec_sub-Keeps insn v
  exec_plain-Keeps Opcode.cmp = exec_cmp-Keeps insn v
  exec_plain-Keeps Opcode.and = exec_logic-Keeps insn v bit_and λ a b h k. bit_and-lt 64 a b h
  exec_plain-Keeps Opcode.or = exec_logic-Keeps insn v bit_or (bit_or-lt 64)
  exec_plain-Keeps Opcode.xor = exec_logic-Keeps insn v bit_xor (bit_xor-lt 64)
  exec_plain-Keeps Opcode.not = exec_not-Keeps insn v
  exec_plain-Keeps Opcode.neg = exec_neg-Keeps insn v
  exec_plain-Keeps Opcode.inc = exec_inc-Keeps insn v
  exec_plain-Keeps Opcode.dec = exec_dec-Keeps insn v
  exec_plain-Keeps Opcode.test = exec_test-Keeps insn v
  exec_plain-Keeps Opcode.shl = exec_shl-Keeps insn v
  exec_plain-Keeps Opcode.shr = exec_shr-Keeps insn v
  exec_plain-Keeps Opcode.sar = exec_sar-Keeps insn v
  exec_plain-Keeps Opcode.imul = exec_imul-Keeps insn v
  exec_plain-Keeps Opcode.leave = exec_leave-Keeps
  exec_plain-Keeps Opcode.cmovcc = exec_cmovcc-Keeps insn v
  exec_plain-Keeps Opcode.setcc = exec_setcc-Keeps insn v
  exec_plain-Keeps Opcode.cdq = exec_cdq-Keeps
  exec_plain-Keeps Opcode.cqo = exec_cqo-Keeps
  exec_plain-Keeps Opcode.cdqe = exec_cdqe-Keeps
  exec_plain-Keeps Opcode.cwde = exec_cwde-Keeps
  exec_plain-Keeps Opcode.bswap = exec_bswap-Keeps insn v
  exec_plain-Keeps Opcode.cpuid = exec_cpuid-Keeps
  exec_plain-Keeps Opcode.xorps = exec_xorps-Keeps insn v
  exec_plain-Keeps Opcode.clc = carry_flag-Keeps _
  exec_plain-Keeps Opcode.stc = carry_flag-Keeps _
  exec_plain-Keeps Opcode.cmc = exec_cmc-Keeps
  exec_plain-Keeps Opcode.cld = direction-Keeps _
  exec_plain-Keeps Opcode.std = direction-Keeps _
  exec_plain-Keeps _ = Keeps-pure tt tt

  exec_op-Keeps :
      (op : Opcode) (rip next_rip : ℕ)
      → rip < 2 ^ 64
      → next_rip < 2 ^ 64
      → Keeps IsNext (exec_op op insn rip next_rip)
  unfolding exec_op
  exec_op-Keeps Opcode.jmp rip next_rip h k =
      Keeps-bind _ _ (jump_target-Keeps insn v) λ target l. Keeps-pure _ l
  exec_op-Keeps Opcode.jcc rip next_rip h k =
      Keeps-bind _ _ (exec_jcc-Keeps insn v next_rip k) λ target l. Keeps-pure _ l
  exec_op-Keeps Opcode.call rip next_rip h k = exec_call-Keeps insn v next_rip
  exec_op-Keeps Opcode.ret rip next_rip h k = exec_ret-Keeps insn v
  exec_op-Keeps Opcode.hlt rip next_rip h k = Keeps-pure _ k
  exec_op-Keeps Opcode.syscall rip next_rip h k = Keeps-pure _ k
  exec_op-Keeps Opcode.int rip next_rip h k = Keeps-pure _ k
  exec_op-Keeps Opcode.unknown rip next_rip h k = Keeps-pure _ h
  exec_op-Keeps op rip next_rip h k = Keeps-then _ _ (exec_plain-Keeps op) (Keeps-pure _ k)

pub set_rip-IsCpu : (cpu : Cpu) (rip : ℕ) → IsCpu cpu → rip < 2 ^ 64 → IsCpu (set_rip cpu rip)
set_rip-IsCpu cpu rip h k = record {
  gprs = h.gprs;
  gpr_fits = h.gpr_fits;
  rip_fits = k;
  rflags_fits = h.rflags_fits;
  xmms = h.xmms;
  xmm_fits = h.xmm_fits;
}

counted-IsCpu : (cpu : Cpu) (n : ℕ) → IsCpu cpu → IsCpu (record cpu { instruction_count = n })
counted-IsCpu cpu n h = record {
  gprs = h.gprs;
  gpr_fits = h.gpr_fits;
  rip_fits = h.rip_fits;
  rflags_fits = h.rflags_fits;
  xmms = h.xmms;
  xmm_fits = h.xmm_fits;
}

fetch_code-Keeps : (n addr : ℕ) → Keeps (λ bs. (length bs ≡ n) × All IsByte bs) (fetch_code n addr)
fetch_code-Keeps zero addr = Keeps-pure [] (refl, tt)
fetch_code-Keeps (suc n) addr = Keeps-bind _ _ (read_mem-Keeps 1 addr) λ b h.
    Keeps-bind _ _ (fetch_code-Keeps n (u64 (addr + 1)))
      λ bs k. Keeps-pure _ (omega (arith, k.0), (h, k.1))

leave_at-Keeps : (next : Next) → IsNext next → Keeps Any (leave_at next)
leave_at-Keeps (go_on rip) h =
    Keeps-bind _ _ get_cpu-Keeps
      λ cpu k. Keeps-then _ _ (put_cpu-Keeps _ (set_rip-IsCpu cpu rip k h)) (Keeps-pure _ tt)
leave_at-Keeps (return_at rip r) h =
    Keeps-bind _ _ get_cpu-Keeps
      λ cpu k. Keeps-then _ _ (put_cpu-Keeps _ (set_rip-IsCpu cpu rip k h)) (Keeps-pure _ tt)

exec_decoded-Keeps :
    (len : ℕ) (insn : Instruction)
    → (len ≡ 0) ⊎ IsInstruction insn
    → Keeps Any (exec_decoded (len, insn))
exec_decoded-Keeps len insn h = elim (Bool-cases (len == 0)) [
  | inl e ↦ rw e (Keeps-pure _ tt)
  | inr e ↦ rw e (
      Keeps-bind _ _ get_cpu-Keeps λ cpu k.
        Keeps-then _ _ (put_cpu-Keeps _ (counted-IsCpu cpu _ k)) (
          Keeps-bind _ _
            (exec_op-Keeps insn (valid h (ground arith)) insn.opcode cpu.rip _ k.rip_fits
              (omega arith))
            leave_at-Keeps))
]
  where
    valid : (len ≡ 0) ⊎ IsInstruction insn → len ≢ 0 → IsInstruction insn
    valid (inl z) nz = absurd (nz z)
    valid (inr v) nz = v

usable :
    (buf : List ℕ) (d : ℕ × Instruction) → Decoded buf 16 (some d) → (d.0 ≡ 0) ⊎ IsInstruction d.1
usable buf d (inl z) = inl z
usable buf d (inr (more, fits, same, v)) = inr v

exec_one-Keeps : Keeps Any exec_one
unfolding exec_one
exec_one-Keeps = Keeps-bind _ _ get_cpu-Keeps λ cpu h.
    Keeps-bind _ _ (fetch_code-Keeps 16 cpu.rip) λ buf k.
      Keeps-bind {P = λ d. (d.0 ≡ 0) ⊎ IsInstruction d.1} _ _
        (Keeps-or_fault Fault.over_read (decode buf 16 cpu.rip) tt λ d e.
          usable buf d
            (subst (Decoded buf 16) e (decode-Decoded buf 16 cpu.rip k.1 (omega (arith, k.0)))))
        λ d v. exec_decoded-Keeps d.0 d.1 v

exec_block-Keeps : (n : ℕ) → Keeps Any (exec_block n)
unfolding exec_block
exec_block-Keeps zero = Keeps-pure _ tt
exec_block-Keeps (suc n) =
    Keeps-bind _ _ exec_one-Keeps
      λ r h. Keeps-if (is_ok r) _ _ (exec_block-Keeps n) (Keeps-pure _ tt)

-- From a valid machine (sixteen registers of 64 bits, well-formed regions), any number of
-- instructions ends in a valid machine or in a fault, and the fault is never an index past a
-- register file: whatever the guest's code is, the decoder names only registers that exist.
pub exec_block-IsMachine :
    (max_insns : ℕ) (s : Machine) → IsMachine s → Outcome Any (exec_block max_insns s)
exec_block-IsMachine max_insns s h = (exec_block-Keeps max_insns).at s h
