-- ===== src/X86/Decode/Safe/Rows.antt =====
-- The helpers of the opcode switch: what they decode is a valid operand or instruction.
use wine_glass.Base.{
  ℕ, ◌+◌, ◌^◌, ◌≤◌, ◌<◌, ◌≡◌, ◌⊎◌, inl, inr, Bool, true, false, ◌==◌, if◌then◌else◌, Bool-cases,
  arith,
}
use wine_glass.Base.Words.{u64}
use wine_glass.X86.State.{IsU64}
use wine_glass.X86.Decode.Types.{Opcode, Operand, Instruction, IsOperand, IsInstruction}
use wine_glass.X86.Decode.Fetch.{Decoder, fetch_simm8, fetch_simm32, get_ctx, here, decode_modrm}
use wine_glass.X86.Decode.Opcodes.{
  in_range, with0, with1, with2, rm_reg, reg_rm, opcode_reg, immediate, byte_or, relative,
}
use wine_glass.X86.Decode.Safe.{Runs, Runs-pure, Runs-if, Runs-bind}
use wine_glass.X86.Decode.Safe.Fetches.{fetch_simm8-Runs, fetch_simm32-Runs, get_ctx-Runs}
use wine_glass.X86.Decode.Safe.Operands.{
  with_rex-lt, IsOperand-reg, IsOperand-imm, IsOperand-rel, decode_modrm-Runs,
}

abbrev pub IsOpSize : ℕ → Type 0
IsOpSize n = (n ≡ 2) ⊎ (n ≡ 4) ⊎ (n ≡ 8)

pub IsOpSize-le : {n : ℕ} → IsOpSize n → n ≤ 16
IsOpSize-le h = omega arith

pub byte_or-le : (b : Bool) {n : ℕ} → IsOpSize n → byte_or b n ≤ 16
byte_or-le true h = omega arith
byte_or-le false h = omega arith

pub IsByte→IsU64 : (v : ℕ) → v < 256 → v < 2 ^ 64
IsByte→IsU64 v h = omega arith

module _ (out : Instruction) (v : IsInstruction out) where
  pub with0-valid : (op : Opcode) → IsInstruction (with0 out op)
  with0-valid op = record {
    op0_valid = v.op0_valid;
    op1_valid = v.op1_valid;
    op2_valid = v.op2_valid;
    size_valid = v.size_valid;
    condition_fits = v.condition_fits;
  }

  pub with1-valid : (op : Opcode) (a : Operand) → IsOperand a → IsInstruction (with1 out op a)
  with1-valid op a h = record {
    op0_valid = h;
    op1_valid = v.op1_valid;
    op2_valid = v.op2_valid;
    size_valid = v.size_valid;
    condition_fits = v.condition_fits;
  }

  pub with2-valid :
      (op : Opcode) (a b : Operand) → IsOperand a → IsOperand b → IsInstruction (with2 out op a b)
  with2-valid op a b h k = record {
    op0_valid = h;
    op1_valid = k;
    op2_valid = v.op2_valid;
    size_valid = v.size_valid;
    condition_fits = v.condition_fits;
  }

  pub condition-valid : (n : ℕ) → n < 16 → IsInstruction (record out { condition = n })
  condition-valid n h = record {
    op0_valid = v.op0_valid;
    op1_valid = v.op1_valid;
    op2_valid = v.op2_valid;
    size_valid = v.size_valid;
    condition_fits = h;
  }

  pub rm_reg-Runs : (op : Opcode) (sz : ℕ) → sz ≤ 16 → Runs IsInstruction (rm_reg out op sz)
  unfolding rm_reg
  rm_reg-Runs op sz h =
      Runs-bind (decode_modrm sz) _ (decode_modrm-Runs sz h)
        λ m w. Runs-pure _ (with2-valid op m.rm m.reg w.0 w.1)

  pub reg_rm-Runs : (op : Opcode) (sz : ℕ) → sz ≤ 16 → Runs IsInstruction (reg_rm out op sz)
  unfolding reg_rm
  reg_rm-Runs op sz h =
      Runs-bind (decode_modrm sz) _ (decode_modrm-Runs sz h)
        λ m w. Runs-pure _ (with2-valid op m.reg m.rm w.1 w.0)

  pub relative-Runs :
      (op : Opcode) (fetch : Decoder ℕ)
      → Runs IsU64 fetch
      → Runs IsInstruction (relative out op fetch)
  unfolding relative
  relative-Runs op fetch h = Runs-bind fetch _ h λ rel _.
      Runs-bind get_ctx _ get_ctx-Runs
        λ c _. Runs-pure _ (with1-valid op _ (IsOperand-rel (u64 (here c + rel)) (omega arith)))

pub opcode_reg-Runs : (field sz : ℕ) → field < 8 → sz ≤ 16 → Runs IsOperand (opcode_reg field sz)
unfolding opcode_reg
opcode_reg-Runs field sz h k =
    Runs-bind get_ctx _ get_ctx-Runs
      λ c v. Runs-pure _ (IsOperand-reg _ sz (with_rex-lt field c.rex_b h v.b_bit) k)

pub immediate-Runs : (sz : ℕ) → sz ≤ 16 → Runs IsOperand (immediate sz)
unfolding immediate
immediate-Runs sz h =
    Runs-if (sz == 1) _ _
      (Runs-bind fetch_simm8 _ fetch_simm8-Runs
        λ v k. Runs-pure _ (IsOperand-imm v 1 k (omega arith)))
      (Runs-bind fetch_simm32 _ fetch_simm32-Runs λ v k. Runs-pure _ (IsOperand-imm v sz k h))

-- A branch that is taken in a range of sixteen or of eight opcodes.
pub Runs-range :
    (lo hi x : ℕ) (m n : Decoder Instruction)
    → (lo ≤ x → x ≤ hi → Runs IsInstruction m)
    → Runs IsInstruction n
    → Runs IsInstruction (if in_range lo hi x then m else n)
Runs-range lo hi x m n h k = elim (Bool-cases (in_range lo hi x)) [
  | inl e ↦ rw e (h (ground arith) (ground arith))
  | inr e ↦ rw e k
]
