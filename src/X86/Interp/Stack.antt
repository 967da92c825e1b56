-- ===== src/X86/Interp/Stack.antt =====
-- The guest's stack: `push64` and `pop64` of Sources/CPU/wg_x86_interp.c, calls and returns.
use mathlib.Core.Option.{some-injective}
use wine_glass.Base.{
  ℕ, zero, suc, ◌+◌, ◌≤◌, ◌<◌, ◌^◌, ◌≡◌, refl, false, ◌==◌, ap, sym, ◌∙◌, true, some, arith, List,
  [], ◌∷◌, length, get_elem?, get_elem?-lt, get_elem?-set_self, set, lt→ltb, ltb, All-get,
}
use wine_glass.Base.Words.{u64, sub64}
use wine_glass.Memory.{Region, find_region, read_word, write_word}
use wine_glass.Memory.Access.{read_word-write_word}
use wine_glass.Memory.Total.{write_word_total, resolve_at}
use wine_glass.X86.State.{IsU64, reg_rsp}
use wine_glass.X86.Decode.Types.{Instruction, OperandType}
use wine_glass.X86.Interp.Operands.{
  Machine, done, ◌>>=◌, get_gpr, put_gpr, read_mem, write_mem, with_mem, push64, pop64,
}
use wine_glass.X86.Interp.Flow.{
  InterpResult, return_at, go_on, exec_ret, drop_arguments, is_thunk, jump_target, exec_call,
}
use wine_glass.X86.Interp.Safe.{IsMachine}

set-set : {A : Type 0} (xs : List A) (i : ℕ) (v w : A) → set (set xs i v) i w ≡ set xs i w
set-set [] i v w = refl
set-set (x ∷ xs) zero v w = refl
set-set (x ∷ xs) (suc i) v w = ap (λ (l : List _). x ∷ l) (set-set xs i v w)

set-get_elem? :
    {A : Type 0} (xs : List A) (i : ℕ) (v : A) → get_elem? xs i ≡ some v → set xs i v ≡ xs
set-get_elem? [] i v h = refl
set-get_elem? (x ∷ xs) zero v h = ap (λ a. a ∷ xs) (some-injective _ _ (sym h))
set-get_elem? (x ∷ xs) (suc i) v h = ap (λ (l : List _). x ∷ l) (set-get_elem? xs i v h)

abbrev with_rsp : Machine → ℕ → Machine
with_rsp s v = record s { cpu = record s.cpu { gpr = set s.cpu.gpr reg_rsp v } }

module _ (s : Machine) (rsp : ℕ) (at : get_elem? s.cpu.gpr reg_rsp ≡ some rsp) where
  has_rsp : ltb reg_rsp (length s.cpu.gpr) ≡ true
  has_rsp = lt→ltb reg_rsp (length s.cpu.gpr) (get_elem?-lt s.cpu.gpr reg_rsp at)

  push64-written :
      (val : ℕ)
      → push64 val s ≡ with_mem (with_rsp s (sub64 rsp 8)) (write_word 8 s.mem (sub64 rsp 8) val)
  unfolding push64 ◌>>=◌ get_gpr put_gpr write_mem
  push64-written val = rw (
    at,
    has_rsp,
    get_elem?-set_self s.cpu.gpr reg_rsp (sub64 rsp 8) (get_elem?-lt s.cpu.gpr reg_rsp at),
  )

  pop64-read :
      (val : ℕ) → read_word 8 s.mem rsp ≡ some val → pop64 s ≡ done val (with_rsp s (u64 (rsp + 8)))
  unfolding pop64 ◌>>=◌ get_gpr put_gpr read_mem
  pop64-read val h = rw (at, h, at, has_rsp)

module _ (s : Machine) (valid : IsMachine s) (rsp i : ℕ) (r : Region)
    (at : get_elem? s.cpu.gpr reg_rsp ≡ some rsp)
    (found : find_region s.mem.regions (sub64 rsp 8) ≡ some (i, r))
    (fits : sub64 rsp 8 + 8 ≤ r.base + r.size) where
  rsp-lt : rsp < 2 ^ 64
  rsp-lt = All-get IsU64 s.cpu.gpr reg_rsp valid.cpu_valid.gpr_fits at

  restored : set (set s.cpu.gpr reg_rsp (sub64 rsp 8)) reg_rsp (u64 (sub64 rsp 8 + 8)) ≡ s.cpu.gpr
  restored =
      set-set s.cpu.gpr reg_rsp _ _
      ∙ ap (set s.cpu.gpr reg_rsp) {y = rsp} (omega (arith, rsp-lt))
      ∙ set-get_elem? s.cpu.gpr reg_rsp rsp at

  -- Where the eight bytes below the stack pointer lie in a mapped region, a push succeeds, and the
  -- pop that follows gives the pushed value and the registers as they were before the push.
  pub push64-pop64 :
      (val : ℕ)
      → val < 2 ^ 64
      → (t : Machine) × (push64 val s ≡ done tt t) × (pop64 t ≡ done val (record t { cpu = s.cpu }))
  push64-pop64 val h =
      let (out, e) = write_word_total 8 s.mem (sub64 rsp 8) val i r valid.mem_valid found fits in
      let t = record (with_rsp s (sub64 rsp 8)) { mem = out } in
      let top =
        get_elem?-set_self s.cpu.gpr reg_rsp (sub64 rsp 8) (get_elem?-lt s.cpu.gpr reg_rsp at) in
      let back =
        read_word-write_word 8 s.mem (sub64 rsp 8) val _ (resolve_at s.mem (sub64 rsp 8) i r found)
          e
        ∙ ap some {y = val} (omega (arith, h)) in
      (
        t,
        push64-written s rsp at val ∙ ap (with_mem (with_rsp s (sub64 rsp 8))) e,
        pop64-read t (sub64 rsp 8) top val back
            ∙ ap (λ g. done val (record t { cpu = record s.cpu { gpr = g } })) restored,
      )

  -- A call whose relative target is the address of a Win32 thunk returns to the interpreter's
  -- caller as a system call, with the address of the next instruction and the registers as they
  -- were: the return address that it pushed is taken off again.
  pub exec_call-thunk :
      (insn : Instruction) (next_rip : ℕ)
      → next_rip < 2 ^ 64
      → insn.op0.kind ≡ OperandType.rel
      → is_thunk insn.op0.imm ≡ true
      → (t : Machine) × (exec_call insn next_rip s
          ≡ done (return_at next_rip InterpResult.syscall) t)
        × (t.cpu ≡ s.cpu)
  unfolding exec_call jump_target ◌>>=◌
  exec_call-thunk insn next_rip h kind thunk =
      let (t, pushed, popped) = push64-pop64 next_rip h in
      (record t { cpu = s.cpu }, rw (pushed, kind, thunk, popped), refl)

  -- A near call of an address that is no thunk, and a plain RET with the stack as the call left it:
  -- control goes to the target and then back behind the call, with the registers as before it. The
  -- address behind the call is not 0, which would halt.
  pub exec_call-exec_ret :
      (call ret : Instruction) (next_rip : ℕ)
      → 0 < next_rip
      → next_rip < 2 ^ 64
      → call.op0.kind ≡ OperandType.rel
      → is_thunk call.op0.imm ≡ false
      → ret.num_operands ≡ 0
      → (t : Machine) × (exec_call call next_rip s ≡ done (go_on call.op0.imm) t)
        × (exec_ret ret t ≡ done (go_on next_rip) (record t { cpu = s.cpu }))
  unfolding exec_call exec_ret drop_arguments jump_target ◌>>=◌
  exec_call-exec_ret call ret next_rip pos h kind far none_dropped =
      let (t, pushed, popped) = push64-pop64 next_rip h in
      let lives : (next_rip == 0) ≡ false = ground arith in
      (t, rw (pushed, kind, far), rw (popped, none_dropped, lives))
