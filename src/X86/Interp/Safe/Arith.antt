-- ===== src/X86/Interp/Safe/Arith.antt =====
-- Arithmetic, logic, shifts and products keep a valid machine.
use native.Mathlib.Nat.{div-le_self, pow-le-pow_right}
use wine_glass.Base.{ℕ, ◌+◌, ◌-◌, ◌<◌, ◌^◌, ◌≡◌, ap, Bool, ◌==◌, ltb, none, some, arith, bit_and}
use wine_glass.Base.Words.{◌>>>◌}
use wine_glass.Base.Bits.{bit_and-lt, bit_and_low, div_pow-lt}
use wine_glass.X86.State.{Cpu, IsCpu, IsU64, reg_rax, reg_rdx}
use wine_glass.X86.State.Flags.{
  set_flag-IsCpu, update_flags_add-IsCpu, update_flags_sub-IsCpu, update_flags_logic-IsCpu,
}
use wine_glass.X86.Decode.Types.{Operand, Instruction, IsOperand, IsInstruction}
use wine_glass.X86.Interp.Operands.{
  Run, Fault, ◌>>=◌, ◌>>◌, get_cpu, mask_for, read_operand, write_operand,
}
use wine_glass.X86.Interp.Arith.{
  set_flags, add_flags, sub_flags, logic_flags, carry_flag, second_operand, exec_add, exec_sub,
  exec_cmp, exec_logic, exec_not, exec_neg, exec_inc, exec_dec, exec_test, shl_carry, shift_left,
  shift_right, sar64, exec_shl, exec_shr, exec_sar, product64, imul_operands, imul_wide, exec_imul,
}
use wine_glass.X86.Interp.Safe.{
  Any, Keeps, Keeps-pure, Keeps-if, Keeps-or_fault, Keeps-bind, Keeps-then, get_cpu-Keeps,
  put_cpu-Keeps, get_gpr-Keeps, put_gpr-Keeps,
}
use wine_glass.X86.Interp.Safe.Operands.{extend-Keeps, read_operand-Keeps, write_operand-Keeps}

pub set_flags-Keeps :
    (f : Cpu → Cpu) → ((cpu : Cpu) → IsCpu cpu → IsCpu (f cpu)) → Keeps Any (set_flags f)
unfolding set_flags
set_flags-Keeps f h = Keeps-bind get_cpu _ get_cpu-Keeps λ cpu k. put_cpu-Keeps (f cpu) (h cpu k)

add_flags-Keeps : (a b r n : ℕ) → Keeps Any (add_flags a b r n)
add_flags-Keeps a b r n = set_flags-Keeps _ λ cpu. update_flags_add-IsCpu cpu a b r n

sub_flags-Keeps : (a b r n : ℕ) → Keeps Any (sub_flags a b r n)
sub_flags-Keeps a b r n = set_flags-Keeps _ λ cpu. update_flags_sub-IsCpu cpu a b r n

logic_flags-Keeps : (r n : ℕ) → Keeps Any (logic_flags r n)
logic_flags-Keeps r n = set_flags-Keeps _ λ cpu. update_flags_logic-IsCpu cpu r n

pub carry_flag-Keeps : (v : Bool) → Keeps Any (carry_flag v)
carry_flag-Keeps v = set_flags-Keeps _ λ cpu. set_flag-IsCpu 0 cpu v (omega arith)

shl_carry-Keeps : (val count n : ℕ) → Keeps Any (shl_carry val count n)
shl_carry-Keeps val count n =
    Keeps-if (ltb n count) _ _ (Keeps-or_fault Fault.bad_shift none tt λ a e. tt)
      (carry_flag-Keeps _)

div-lt : (x k : ℕ) → x < 2 ^ 64 → x >>> k < 2 ^ 64
div-lt x k h = omega (arith, div-le_self x (2 ^ k))

sar64-lt : (x count : ℕ) → x < 2 ^ 64 → count < 64 → sar64 x count < 2 ^ 64
unfolding sar64
sar64-lt x count h k = ground (
  arith,
  div-lt x count h,
  div_pow-lt (64 - count) count x (omega (arith, rejoined)),
  pow-le-pow_right {n = 2} (omega arith) {i = 64 - count} {j = 64} (omega arith),
)
  where
    rejoined : 2 ^ (64 - count + count) ≡ 2 ^ 64
    rejoined = ap (λ (n : ℕ). 2 ^ n) {y = 64} (omega arith)

product64-lt : (a b : ℕ) {r : ℕ} → product64 a b ≡ some r → r < 2 ^ 64
unfolding product64
product64-lt a b {r} e = ground arith

low6 : (n : ℕ) → bit_and n 0x3F < 64
low6 n = omega (arith, bit_and_low 6 n)

module _ (insn : Instruction) (v : IsInstruction insn) where
  second_operand-Keeps : Keeps IsU64 (second_operand insn)
  unfolding second_operand
  second_operand-Keeps =
      Keeps-bind (read_operand insn.op1) _ (read_operand-Keeps insn.op1 v.op1_valid) λ b h.
        Keeps-if (ltb insn.op1.size insn.op0.size) _ _ (extend-Keeps b insn.op1.size h)
          (Keeps-pure b h)

  -- A handler that reads the first operand.
  with_first :
      {B : Type 0} {Q : B → Type 0} (f : ℕ → Run B)
      → ((a : ℕ) → a < 2 ^ 64 → Keeps Q (f a))
      → Keeps Q (do a ← read_operand insn.op0; f a)
  with_first f h = Keeps-bind (read_operand insn.op0) f (read_operand-Keeps insn.op0 v.op0_valid) h

  store_first :
      {B : Type 0} {Q : B → Type 0} (r : ℕ) (m : Run B)
      → r < 2 ^ 64
      → Keeps Q m
      → Keeps Q (do write_operand insn.op0 r; m)
  store_first r m h k = Keeps-then _ m (write_operand-Keeps insn.op0 v.op0_valid r h) k

  with_both :
      {B : Type 0} {Q : B → Type 0} (f : ℕ → ℕ → Run B)
      → ((a b : ℕ) → a < 2 ^ 64 → b < 2 ^ 64 → Keeps Q (f a b))
      → Keeps Q (do a ← read_operand insn.op0; b ← second_operand insn; f a b)
  with_both f h =
      with_first _
        λ a ha. Keeps-bind (second_operand insn) (f a) second_operand-Keeps λ b hb. h a b ha hb

  pub exec_add-Keeps : Keeps Any (exec_add insn)
  unfolding exec_add
  exec_add-Keeps = with_both _ λ a b ha hb. store_first _ _ (omega arith) (add_flags-Keeps _ _ _ _)

  pub exec_sub-Keeps : Keeps Any (exec_sub insn)
  unfolding exec_sub
  exec_sub-Keeps = with_both _ λ a b ha hb. store_first _ _ (omega arith) (sub_flags-Keeps _ _ _ _)

  pub exec_cmp-Keeps : Keeps Any (exec_cmp insn)
  unfolding exec_cmp
  exec_cmp-Keeps = with_both _ λ a b ha hb. sub_flags-Keeps _ _ _ _

  pub exec_logic-Keeps :
      (f : ℕ → ℕ → ℕ)
      → ((a b : ℕ) → a < 2 ^ 64 → b < 2 ^ 64 → f a b < 2 ^ 64)
      → Keeps Any (exec_logic f insn)
  unfolding exec_logic
  exec_logic-Keeps f h =
      with_both _ λ a b ha hb. store_first _ _ (h a b ha hb) (logic_flags-Keeps _ _)

  pub exec_not-Keeps : Keeps Any (exec_not insn)
  unfolding exec_not
  exec_not-Keeps = with_first _ λ a h. write_operand-Keeps insn.op0 v.op0_valid _ (omega arith)

  pub exec_neg-Keeps : Keeps Any (exec_neg insn)
  unfolding exec_neg
  exec_neg-Keeps = with_first _ λ a h. store_first _ _ (omega arith) (sub_flags-Keeps _ _ _ _)

  pub exec_inc-Keeps : Keeps Any (exec_inc insn)
  unfolding exec_inc
  exec_inc-Keeps = with_first _ λ a h. store_first _ _ (omega arith) (
      Keeps-bind get_cpu _ get_cpu-Keeps
        λ cpu k. Keeps-then _ _ (add_flags-Keeps _ _ _ _) (carry_flag-Keeps _))

  pub exec_dec-Keeps : Keeps Any (exec_dec insn)
  unfolding exec_dec
  exec_dec-Keeps = with_first _ λ a h. store_first _ _ (omega arith) (
      Keeps-bind get_cpu _ get_cpu-Keeps
        λ cpu k. Keeps-then _ _ (sub_flags-Keeps _ _ _ _) (carry_flag-Keeps _))

  -- The second operand as it is read, not extended.
  with_plain :
      {B : Type 0} {Q : B → Type 0} (f : ℕ → ℕ → Run B)
      → ((a b : ℕ) → a < 2 ^ 64 → Keeps Q (f a b))
      → Keeps Q (do a ← read_operand insn.op0; b ← read_operand insn.op1; f a b)
  with_plain f h = with_first _ λ a ha.
      Keeps-bind (read_operand insn.op1) (f a) (read_operand-Keeps insn.op1 v.op1_valid)
        λ b hb. h a b ha

  pub exec_test-Keeps : Keeps Any (exec_test insn)
  unfolding exec_test
  exec_test-Keeps = with_plain _ λ a b ha. logic_flags-Keeps _ _

  shift_left-Keeps : (val count : ℕ) → Keeps Any (shift_left insn val count)
  shift_left-Keeps val count =
      store_first _ _ (omega arith) (Keeps-then _ _ (logic_flags-Keeps _ _) (shl_carry-Keeps _ _ _))

  shift_right-Keeps : (val count r : ℕ) → r < 2 ^ 64 → Keeps Any (shift_right insn val count r)
  shift_right-Keeps val count r h =
      store_first _ _ h (Keeps-then _ _ (logic_flags-Keeps _ _) (carry_flag-Keeps _))

  pub exec_shl-Keeps : Keeps Any (exec_shl insn)
  unfolding exec_shl
  exec_shl-Keeps =
      with_plain _
        λ a b ha. Keeps-if (bit_and b 0x3F == 0) _ _ (Keeps-pure tt tt) (shift_left-Keeps a _)

  pub exec_shr-Keeps : Keeps Any (exec_shr insn)
  unfolding exec_shr
  exec_shr-Keeps = with_plain _ λ a b ha.
      Keeps-if (bit_and b 0x3F == 0) _ _ (Keeps-pure tt tt)
        (shift_right-Keeps a _ _ (div-lt _ _ (bit_and-lt 64 a (mask_for insn.op_size) ha)))

  pub exec_sar-Keeps : Keeps Any (exec_sar insn)
  unfolding exec_sar
  exec_sar-Keeps = with_plain _ λ a b ha. Keeps-if (bit_and b 0x3F == 0) _ _ (Keeps-pure tt tt) (
      Keeps-bind _ _ (extend-Keeps a insn.op_size ha)
        λ s h. shift_right-Keeps a _ _ (sar64-lt s _ h (low6 b)))

  imul_operands-Keeps :
      (x y : Operand) → IsOperand x → IsOperand y → Keeps Any (imul_operands insn x y)
  imul_operands-Keeps x y hx hy = Keeps-bind _ _ (read_operand-Keeps x hx) λ p hp.
      Keeps-bind _ _ (extend-Keeps p insn.op_size hp) λ a ha.
        Keeps-bind _ _ (read_operand-Keeps y hy) λ q hq.
          Keeps-bind _ _ (extend-Keeps q insn.op_size hq) λ b hb.
            Keeps-bind {P = IsU64} _ _
              (Keeps-or_fault Fault.signed_overflow (product64 a b) tt λ r e. product64-lt a b e)
              λ r hr. write_operand-Keeps insn.op0 v.op0_valid r hr

  imul_wide-Keeps : Keeps Any (imul_wide insn)
  imul_wide-Keeps = Keeps-bind _ _ (get_gpr-Keeps reg_rax (omega arith)) λ rax h.
      Keeps-bind _ _ (extend-Keeps rax insn.op_size h) λ a ha. with_first _ λ w hw.
        Keeps-bind _ _ (extend-Keeps w insn.op_size hw) λ b hb.
          Keeps-then _ _
            (put_gpr-Keeps reg_rax _ (omega arith)
              (bit_and-lt 64 _ (mask_for insn.op_size) (omega arith)))
            (put_gpr-Keeps reg_rdx _ (omega arith)
              (bit_and-lt 64 _ (mask_for insn.op_size) (omega arith)))

  pub exec_imul-Keeps : Keeps Any (exec_imul insn)
  unfolding exec_imul
  exec_imul-Keeps = Keeps-if (insn.num_operands == 1) _ _ imul_wide-Keeps (
      Keeps-if (insn.num_operands == 2) _ _
        (imul_operands-Keeps insn.op0 insn.op1 v.op0_valid v.op1_valid)
        (imul_operands-Keeps insn.op1 insn.op2 v.op1_valid v.op2_valid))
