-- ===== src/X86/Interp/Safe/Flow.antt =====
-- Moves, the stack, jumps, calls and the instructions on fixed registers keep a valid machine.
use wine_glass.Base.{
  ℕ, true, false, ◌-◌, ◌<◌, ◌^◌, ◌∙◌, Bool, ◌==◌, if◌then◌else◌, arith, bit_and, length,
  get_elem?_total, All-get, All-set, length-set, lt→ltb,
}
use wine_glass.Base.Words.{u32, not64, sext}
use wine_glass.Base.Bits.{bit_and-lt, bit_or-lt, bit_xor-lt, bit_and_low}
use wine_glass.X86.State.{IsU64, IsU64Pair, reg_rax, reg_rbx, reg_rcx, reg_rdx, reg_rsp, reg_rbp}
use wine_glass.X86.State.Compare.{eval_condition}
use wine_glass.X86.Decode.Types.{Instruction, IsInstruction}
use wine_glass.X86.Decode.Safe.Fetches.{sext-lt}
use wine_glass.X86.Interp.Operands.{Machine}
use wine_glass.X86.Interp.Flow.{
  InterpResult, Next, go_on, return_at, exec_mov, exec_movsx, exec_lea, exec_xchg, exec_push,
  exec_pop, is_rel, is_reg, jump_target, exec_jcc, is_thunk, exec_call, drop_arguments, exec_ret,
  exec_leave, exec_cmovcc, exec_setcc, high_half, exec_cdq, exec_cqo, exec_cdqe, exec_cwde,
  swap_bytes, exec_bswap, put_four, exec_cpuid, get_xmm, put_xmm, exec_xorps,
}
use wine_glass.X86.Interp.Safe.{
  IsMachine, Outcome, Any, Keeps, Keeps-pure, Keeps-if, Keeps-bind, Keeps-then, get_cpu-Keeps,
  get_gpr-Keeps, put_gpr-Keeps,
}
use wine_glass.X86.Interp.Safe.Operands.{
  extend-Keeps, read_operand-Keeps, write_operand-Keeps, compute_ea-Keeps, push64-Keeps,
  pop64-Keeps,
}

-- Wherever the next instruction is, it is a 64-bit address.
abbrev pub IsNext : Next → Type 0
IsNext (go_on rip) = rip < 2 ^ 64
IsNext (return_at rip r) = rip < 2 ^ 64

if-lt : (b : Bool) (x y n : ℕ) → x < n → y < n → (if b then x else y) < n
if-lt b x y n h k = ground arith

module _ (insn : Instruction) (v : IsInstruction insn) where
  pub exec_mov-Keeps : Keeps Any (exec_mov insn)
  unfolding exec_mov
  exec_mov-Keeps =
      Keeps-bind _ _ (read_operand-Keeps insn.op1 v.op1_valid)
        λ a h. write_operand-Keeps insn.op0 v.op0_valid a h

  pub exec_movsx-Keeps : Keeps Any (exec_movsx insn)
  unfolding exec_movsx
  exec_movsx-Keeps = Keeps-bind _ _ (read_operand-Keeps insn.op1 v.op1_valid) λ a h.
      Keeps-bind _ _ (extend-Keeps a insn.op1.size h)
        λ s k. write_operand-Keeps insn.op0 v.op0_valid s k

  pub exec_lea-Keeps : Keeps Any (exec_lea insn)
  unfolding exec_lea
  exec_lea-Keeps =
      Keeps-bind _ _ (compute_ea-Keeps insn.op1 v.op1_valid)
        λ a h. write_operand-Keeps insn.op0 v.op0_valid a h

  pub exec_xchg-Keeps : Keeps Any (exec_xchg insn)
  unfolding exec_xchg
  exec_xchg-Keeps = Keeps-bind _ _ (read_operand-Keeps insn.op0 v.op0_valid) λ a h.
      Keeps-bind _ _ (read_operand-Keeps insn.op1 v.op1_valid) λ b k.
        Keeps-then _ _ (write_operand-Keeps insn.op0 v.op0_valid b k)
          (write_operand-Keeps insn.op1 v.op1_valid a h)

  pub exec_push-Keeps : Keeps Any (exec_push insn)
  unfolding exec_push
  exec_push-Keeps = Keeps-bind _ _ (read_operand-Keeps insn.op0 v.op0_valid) λ a h. push64-Keeps a

  pub exec_pop-Keeps : Keeps Any (exec_pop insn)
  unfolding exec_pop
  exec_pop-Keeps = Keeps-bind _ _ pop64-Keeps λ a h. write_operand-Keeps insn.op0 v.op0_valid a h

  pub jump_target-Keeps : Keeps IsU64 (jump_target insn.op0)
  unfolding jump_target
  jump_target-Keeps =
      Keeps-if (is_rel insn.op0.kind) _ _ (Keeps-pure _ v.op0_valid.imm_fits)
        (read_operand-Keeps insn.op0 v.op0_valid)

  pub exec_jcc-Keeps : (next_rip : ℕ) → next_rip < 2 ^ 64 → Keeps IsU64 (exec_jcc insn next_rip)
  unfolding exec_jcc
  exec_jcc-Keeps next_rip h =
      Keeps-bind _ _ get_cpu-Keeps
        λ cpu k. Keeps-pure _ (if-lt _ _ _ (2 ^ 64) v.op0_valid.imm_fits h)

  pub exec_call-Keeps : (next_rip : ℕ) → Keeps IsNext (exec_call insn next_rip)
  unfolding exec_call
  exec_call-Keeps next_rip = Keeps-then _ _ (push64-Keeps next_rip) (
      Keeps-bind _ _ jump_target-Keeps λ target h.
        Keeps-if (is_thunk target) _ _ (Keeps-bind _ _ pop64-Keeps λ back k. Keeps-pure _ k)
          (Keeps-pure _ h))

  drop_arguments-Keeps : Keeps Any (drop_arguments insn)
  unfolding drop_arguments
  drop_arguments-Keeps = Keeps-if (insn.num_operands == 0) _ _ (Keeps-pure tt tt) (
      Keeps-bind _ _ (get_gpr-Keeps reg_rsp (omega arith))
        λ rsp h. put_gpr-Keeps reg_rsp _ (omega arith) (omega arith))

  pub exec_ret-Keeps : Keeps IsNext (exec_ret insn)
  unfolding exec_ret
  exec_ret-Keeps =
      Keeps-bind _ _ pop64-Keeps λ target h.
        Keeps-then _ _ drop_arguments-Keeps (Keeps-pure _ (either (target == 0) target h))
    where
      either :
          (b : Bool) (target : ℕ)
          → target < 2 ^ 64
          → IsNext (if b then return_at target InterpResult.halt else go_on target)
      either true target h = h
      either false target h = h

  pub exec_cmovcc-Keeps : Keeps Any (exec_cmovcc insn)
  unfolding exec_cmovcc
  exec_cmovcc-Keeps =
      Keeps-bind _ _ get_cpu-Keeps
        λ cpu k. Keeps-if (eval_condition cpu insn.condition) _ _ exec_mov-Keeps (Keeps-pure tt tt)

  pub exec_setcc-Keeps : Keeps Any (exec_setcc insn)
  unfolding exec_setcc
  exec_setcc-Keeps = Keeps-bind _ _ get_cpu-Keeps λ cpu k.
      write_operand-Keeps insn.op0 v.op0_valid _ (if-lt _ 1 0 (2 ^ 64) (omega arith) (omega arith))

  pub exec_bswap-Keeps : Keeps Any (exec_bswap insn)
  unfolding exec_bswap
  exec_bswap-Keeps = Keeps-bind _ _ (get_gpr-Keeps insn.op0.reg_index v.op0_valid.reg_fits) λ val h.
      put_gpr-Keeps insn.op0.reg_index _ v.op0_valid.reg_fits
        (if-lt _ _ _ (2 ^ 64) (eight val) (four (u32 val)))
    where
      eight : (val : ℕ) → swap_bytes 8 val < 2 ^ 64
      eight val = omega arith

      four : (val : ℕ) → swap_bytes 4 val < 2 ^ 64
      four val = omega arith

  pub exec_xorps-Keeps : Keeps Any (exec_xorps insn)
  unfolding exec_xorps
  exec_xorps-Keeps =
      Keeps-if (is_reg insn.op1.kind) _ _
        (Keeps-bind _ _ (get_xmm-Keeps insn.op0.reg_index v.op0_valid.reg_fits) λ a h.
          Keeps-bind _ _ (get_xmm-Keeps insn.op1.reg_index v.op1_valid.reg_fits) λ b k.
            put_xmm-Keeps insn.op0.reg_index _ v.op0_valid.reg_fits
              (bit_xor-lt 64 a.0 b.0 h.0 k.0, bit_xor-lt 64 a.1 b.1 h.1 k.1))
        (Keeps-pure tt tt)
    where
      get_xmm-Keeps : (r : ℕ) → r < 16 → Keeps IsU64Pair (get_xmm r)
      get_xmm-Keeps r h = record { at = λ s w. read s w }
        where
          read : (s : Machine) → IsMachine s → Outcome IsU64Pair (get_xmm r s)
          read s w =
              let c = w.cpu_valid in
              let (x, e) = get_elem?_total s.cpu.xmm r (omega (arith, c.xmms, h)) in
              rw e (w, All-get IsU64Pair s.cpu.xmm r c.xmm_fits e)

      put_xmm-Keeps : (r : ℕ) (x : ℕ × ℕ) → r < 16 → IsU64Pair x → Keeps Any (put_xmm r x)
      put_xmm-Keeps r x h k = record { at = λ s w. write s w }
        where
          write : (s : Machine) → IsMachine s → Outcome Any (put_xmm r x s)
          write s w =
              let c = w.cpu_valid in
              let inside = lt→ltb r (length s.cpu.xmm) (omega (arith, c.xmms, h)) in
              rw inside (
                record {
                  cpu_valid = record {
                    gprs = c.gprs;
                    gpr_fits = c.gpr_fits;
                    rip_fits = c.rip_fits;
                    rflags_fits = c.rflags_fits;
                    xmms = length-set s.cpu.xmm r x ∙ c.xmms;
                    xmm_fits = All-set IsU64Pair s.cpu.xmm r x c.xmm_fits k;
                  };
                  mem_valid = w.mem_valid;
                },
                tt,
              )

pub exec_leave-Keeps : Keeps Any exec_leave
unfolding exec_leave
exec_leave-Keeps = Keeps-bind _ _ (get_gpr-Keeps reg_rbp (omega arith)) λ rbp h.
    Keeps-then _ _ (put_gpr-Keeps reg_rsp rbp (omega arith) h)
      (Keeps-bind _ _ pop64-Keeps λ old k. put_gpr-Keeps reg_rbp old (omega arith) k)

high_half-lt : (v : ℕ) → v < 2 ^ 64 → high_half v < 2 ^ 64
high_half-lt v h = bit_and-lt 64 v (not64 0xFFFFFFFF) h

pub exec_cdq-Keeps : Keeps Any exec_cdq
unfolding exec_cdq
exec_cdq-Keeps = Keeps-bind _ _ (get_gpr-Keeps reg_rax (omega arith)) λ rax h.
    Keeps-bind _ _ (get_gpr-Keeps reg_rdx (omega arith)) λ rdx k.
      put_gpr-Keeps reg_rdx _ (omega arith) (
        if-lt _ _ _ (2 ^ 64)
          (bit_or-lt 64 (high_half rdx) 0xFFFFFFFF (high_half-lt rdx k) (omega arith))
          (high_half-lt rdx k))

pub exec_cqo-Keeps : Keeps Any exec_cqo
unfolding exec_cqo
exec_cqo-Keeps = Keeps-bind _ _ (get_gpr-Keeps reg_rax (omega arith)) λ rax h.
    put_gpr-Keeps reg_rdx _ (omega arith)
      (if-lt _ (2 ^ 64 - 1) 0 (2 ^ 64) (omega arith) (omega arith))

pub exec_cdqe-Keeps : Keeps Any exec_cdqe
unfolding exec_cdqe
exec_cdqe-Keeps = Keeps-bind _ _ (get_gpr-Keeps reg_rax (omega arith)) λ rax h.
    put_gpr-Keeps reg_rax _ (omega arith)
      (sext-lt 32 (bit_and rax 0xFFFFFFFF) (omega arith) (omega (arith, bit_and_low 32 rax)))

pub exec_cwde-Keeps : Keeps Any exec_cwde
unfolding exec_cwde
exec_cwde-Keeps = Keeps-bind _ _ (get_gpr-Keeps reg_rax (omega arith)) λ rax h.
    put_gpr-Keeps reg_rax _ (omega arith) (
      bit_or-lt 64 (high_half rax) (u32 (sext 16 (bit_and rax 0xFFFF))) (high_half-lt rax h)
        (omega arith))

put_four-Keeps :
    (a b c d : ℕ) → a < 2 ^ 64 → b < 2 ^ 64 → c < 2 ^ 64 → d < 2 ^ 64 → Keeps Any (put_four a b c d)
put_four-Keeps a b c d ha hb hc hd = Keeps-then _ _ (put_gpr-Keeps reg_rax a (omega arith) ha) (
    Keeps-then _ _ (put_gpr-Keeps reg_rbx b (omega arith) hb) (
      Keeps-then _ _ (put_gpr-Keeps reg_rcx c (omega arith) hc)
        (put_gpr-Keeps reg_rdx d (omega arith) hd)))

pub exec_cpuid-Keeps : Keeps Any exec_cpuid
unfolding exec_cpuid
exec_cpuid-Keeps = Keeps-bind _ _ (get_gpr-Keeps reg_rax (omega arith)) λ rax h.
    Keeps-if (u32 rax == 0) _ _
      (put_four-Keeps 0x16 0x656E6957 0x00007373 0x73616C47 (omega arith) (omega arith)
        (omega arith) (omega arith))
      (Keeps-if (u32 rax == 1) _ _
        (put_four-Keeps 0x000906EA 0x00100800 0x7FFAFBBF 0xBFEBFBFF (omega arith) (omega arith)
          (omega arith) (omega arith))
        (put_four-Keeps 0 0 0 0 (omega arith) (omega arith) (omega arith) (omega arith)))
