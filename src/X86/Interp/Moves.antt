-- ===== src/X86/Interp/Moves.antt =====
-- A 64-bit register move from the bytes in memory to the registers: `wg_x86_exec_one` of
-- Sources/CPU/wg_x86_interp.c with the decoder.
use wine_glass.Base.{
  ℕ, ◌+◌, ◌<◌, ◌^◌, ◌≡◌, ◌∙◌, some, ap, ◌-◌, arith, List, ◌++◌, length, get_elem?, get_elem?-lt,
  set, lt→ltb, All-get, bit_and,
}
use wine_glass.Base.Words.{u64}
use wine_glass.Base.Bits.{bit_and_low}
use wine_glass.X86.State.{IsU64}
use wine_glass.X86.Decode.{decode}
use wine_glass.X86.Decode.Moves.{mov_bytes, mov_insn, decode-mov_bytes}
use wine_glass.X86.Interp.Operands.{
  Machine, Fault, done, ◌>>=◌, after_run, or_fault, get_cpu, put_cpu, get_gpr, put_gpr, mask_for,
  merge, read_operand, write_operand,
}
use wine_glass.X86.Interp.Flow.{InterpResult, exec_mov}
use wine_glass.X86.Interp.{exec_plain, exec_op, fetch_code, exec_decoded, exec_one}
use wine_glass.X86.Interp.Safe.{IsMachine}

-- Register `to` holds the value, and the instruction of three bytes is done.
abbrev pub moved : Machine → ℕ → ℕ → Machine
moved s to val = record s {
  cpu = record s.cpu {
    gpr = set s.cpu.gpr to val;
    rip = u64 (s.cpu.rip + 3);
    instruction_count = u64 (s.cpu.instruction_count + 1);
  };
}

module _ (s : Machine) (v : IsMachine s) (to from old val : ℕ)
    (there : get_elem? s.cpu.gpr to ≡ some old) (here : get_elem? s.cpu.gpr from ≡ some val) where
  val-masked : bit_and val (2 ^ 64 - 1) ≡ val
  val-masked =
      let h = All-get IsU64 s.cpu.gpr from v.cpu_valid.gpr_fits here in
      omega (arith, h, bit_and_low 64 val)

  executed : exec_decoded (3, mov_insn to from) s ≡ done InterpResult.ok (moved s to val)
  unfolding exec_op exec_plain exec_mov read_operand write_operand get_gpr put_gpr merge mask_for
      get_cpu put_cpu ◌>>=◌
  executed =
      let inside = lt→ltb to (length s.cpu.gpr) (get_elem?-lt s.cpu.gpr to there) in
      rw (here, val-masked, there, inside)

  -- Where the code at `rip` begins with the bytes of a 64-bit move between two of the sixteen
  -- registers, one step of a valid machine copies the register, moves `rip` by three, counts the
  -- instruction and changes nothing else; what follows in memory does not matter.
  pub exec_one-mov :
      (rest : List ℕ)
      → to < 16
      → from < 16
      → fetch_code 16 s.cpu.rip s ≡ done (mov_bytes to from ++ rest) s
      → exec_one s ≡ done InterpResult.ok (moved s to val)
  unfolding exec_one get_cpu ◌>>=◌
  exec_one-mov rest h k fetched =
      ap
        (λ r.
          after_run r (λ buf. or_fault Fault.over_read (decode buf 16 s.cpu.rip) >>= exec_decoded))
        fetched
      ∙ ap (λ o. after_run (or_fault Fault.over_read o s) exec_decoded)
          (decode-mov_bytes rest s.cpu.rip to from h k)
      ∙ executed
