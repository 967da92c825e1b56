-- ===== src/X86/Interp/Jumps.antt =====
-- CMP and the conditional jump after it, from Sources/CPU/wg_x86_interp.c, as one step of the
-- guest's control flow.
use wine_glass.Base.{ℕ, ◌*◌, ◌<◌, ◌^◌, ◌≡◌, Bool, not, ◌==◌, ltb, leb, if◌then◌else◌}
use wine_glass.Base.Words.{sub64}
use wine_glass.X86.State.{Cpu, update_flags_sub}
use wine_glass.X86.State.Compare.{Width, bits, signed_ltb, eval_condition, eval_condition-compared}
use wine_glass.X86.Decode.Types.{Instruction}
use wine_glass.X86.Interp.Operands.{Machine, done, ◌>>=◌, get_cpu, put_cpu, read_operand}
use wine_glass.X86.Interp.Arith.{set_flags, second_operand, exec_cmp}
use wine_glass.X86.Interp.Flow.{exec_jcc}

-- What the jumps are named for: B, AE, E, NE, BE, A, L, GE, LE and G.
pub data Relation : Type 0 where
  below above_equal equal not_equal below_equal above : Relation
  less greater_equal less_equal greater : Relation

abbrev pub code_of : Relation → ℕ
code_of below = 0x2
code_of above_equal = 0x3
code_of equal = 0x4
code_of not_equal = 0x5
code_of below_equal = 0x6
code_of above = 0x7
code_of less = 0xC
code_of greater_equal = 0xD
code_of less_equal = 0xE
code_of greater = 0xF

abbrev pub holds : Relation → Width → ℕ → ℕ → Bool
holds below w a b = ltb a b
holds above_equal w a b = not (ltb a b)
holds equal w a b = a == b
holds not_equal w a b = not (a == b)
holds below_equal w a b = leb a b
holds above w a b = ltb b a
holds less w a b = signed_ltb w a b
holds greater_equal w a b = not (signed_ltb w a b)
holds less_equal w a b = not (signed_ltb w b a)
holds greater w a b = signed_ltb w b a

module _ (w : Width) (s : Machine) (a b : ℕ) (ha : a < 2 ^ bits w) (hb : b < 2 ^ bits w) where
  abbrev flags : Cpu
  flags = update_flags_sub s.cpu a b (sub64 a b) (bits w)

  condition_of : (rel : Relation) → eval_condition flags (code_of rel) ≡ holds rel w a b
  condition_of below = (eval_condition-compared w s.cpu a b ha hb).0
  condition_of above_equal = (eval_condition-compared w s.cpu a b ha hb).1
  condition_of equal = (eval_condition-compared w s.cpu a b ha hb).2
  condition_of not_equal = (eval_condition-compared w s.cpu a b ha hb).3
  condition_of below_equal = (eval_condition-compared w s.cpu a b ha hb).4
  condition_of above = (eval_condition-compared w s.cpu a b ha hb).5
  condition_of less = (eval_condition-compared w s.cpu a b ha hb).6
  condition_of greater_equal = (eval_condition-compared w s.cpu a b ha hb).7
  condition_of less_equal = (eval_condition-compared w s.cpu a b ha hb).8
  condition_of greater = (eval_condition-compared w s.cpu a b ha hb).9

  -- A CMP of two operands whose values have the width of the instruction, and the conditional jump
  -- after it: the jump goes to its target exactly when the relation that it is named for holds of
  -- the two values, and else to the next instruction. The CMP changes only the flags.
  pub exec_cmp-exec_jcc :
      (insn jump : Instruction) (rel : Relation) (next_rip : ℕ)
      → read_operand insn.op0 s ≡ done a s
      → second_operand insn s ≡ done b s
      → insn.op_size * 8 ≡ bits w
      → jump.condition ≡ code_of rel
      → (exec_cmp insn s ≡ done tt (record s { cpu = flags }))
        × (exec_jcc jump next_rip (record s { cpu = flags })
            ≡ done (if holds rel w a b then jump.op0.imm else next_rip) (record s { cpu = flags }))
  unfolding exec_cmp exec_jcc set_flags get_cpu put_cpu ◌>>=◌
  exec_cmp-exec_jcc insn jump rel next_rip first second width code =
      (rw (first, second, width), rw (code, condition_of rel))
