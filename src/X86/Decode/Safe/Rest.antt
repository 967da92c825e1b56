-- ===== src/X86/Decode/Safe/Rest.antt =====
-- The last cases of the opcode switch and the two-byte opcodes: what they decode is a valid
-- instruction.
use wine_glass.Base.{ℕ, ◌-◌, ◌≤◌, Bool, true, false, ◌||◌, ◌==◌, if◌then◌else◌, arith}
use wine_glass.X86.Decode.Types.{Opcode, Instruction, IsInstruction, imm_operand}
use wine_glass.X86.Decode.Fetch.{
  pure, ◌>>=◌, fetch8, fetch_simm8, fetch_simm32, get_ctx, decode_modrm,
}
use wine_glass.X86.Decode.Opcodes.{
  in_range, with0, with1, with2, rm_reg, reg_rm, opcode_reg, by_size, decode_two_byte, decode_rest,
}
use wine_glass.X86.Decode.Safe.{Runs, Runs-pure, Runs-if, Runs-bind}
use wine_glass.X86.Decode.Safe.Fetches.{
  fetch8-Runs, fetch_simm8-Runs, fetch_simm32-Runs, get_ctx-Runs,
}
use wine_glass.X86.Decode.Safe.Operands.{
  IsOperand-reg, IsOperand-imm, IsOperand-size, decode_modrm-Runs,
}
use wine_glass.X86.Decode.Safe.Rows.{
  IsOpSize, IsOpSize-le, IsByte→IsU64, with0-valid, with1-valid, with2-valid, condition-valid,
  rm_reg-Runs, reg_rm-Runs, relative-Runs, opcode_reg-Runs, Runs-range,
}

module _ (out : Instruction) (v : IsInstruction out) (op_sz : ℕ) (s : IsOpSize op_sz) where
  leaf : (op : Opcode) → Runs IsInstruction (pure (with0 out op))
  leaf op = Runs-pure _ (with0-valid out v op)

  from_rm : (op : Opcode) (sz : ℕ) → sz ≤ 16 → Runs IsInstruction (reg_rm out op sz)
  from_rm op sz h = reg_rm-Runs out v op sz h

  two_byte_extend :
      (op : Opcode) (b : Bool)
      → Runs IsInstruction (do
        m ← decode_modrm (if b then 1 else 2)
        pure (with2 out op (record m.reg { size = op_sz }) m.rm))
  two_byte_extend op b = Runs-bind (decode_modrm _) _ (decode_modrm-Runs _ (small b)) λ m w.
      Runs-pure _ (with2-valid out v op _ _ (IsOperand-size m.reg op_sz (IsOpSize-le s) w.1) w.0)
    where
      small : (b : Bool) → (if b then 1 else 2) ≤ 16
      small true = omega arith
      small false = omega arith

  nop-Runs :
      Runs IsInstruction
        (do m ← decode_modrm op_sz; pure (record out { opcode = Opcode.nop; op0 = m.rm }))
  nop-Runs = Runs-bind (decode_modrm op_sz) _ (decode_modrm-Runs op_sz (IsOpSize-le s)) λ m w.
      Runs-pure _ (record {
        op0_valid = w.0;
        op1_valid = v.op1_valid;
        op2_valid = v.op2_valid;
        size_valid = v.size_valid;
        condition_fits = v.condition_fits;
      })

  pub decode_two_byte-Runs : (op2 : ℕ) → Runs IsInstruction (decode_two_byte op2 op_sz out)
  unfolding decode_two_byte
  decode_two_byte-Runs op2 =
      Runs-range 0x80 0x8F op2 _ _
        (λ lo hi.
          relative-Runs _ (condition-valid out v (op2 - 0x80) (omega arith)) Opcode.jcc _
            fetch_simm32-Runs)
        (Runs-range 0x90 0x9F op2 _ _
          (λ lo hi. Runs-bind (decode_modrm 1) _ (decode_modrm-Runs 1 (omega arith)) λ m w.
            Runs-pure _
              (with1-valid _ (condition-valid out v (op2 - 0x90) (omega arith)) Opcode.setcc _ w.0))
          (Runs-range 0x40 0x4F op2 _ _
            (λ lo hi.
              reg_rm-Runs _ (condition-valid out v (op2 - 0x40) (omega arith)) Opcode.cmovcc op_sz
                (IsOpSize-le s))
            (Runs-if (in_range 0xB6 0xB7 op2) _ _ (two_byte_extend Opcode.movzx (op2 == 0xB6)) (
              Runs-if (in_range 0xBE 0xBF op2) _ _ (two_byte_extend Opcode.movsx (op2 == 0xBE)) (
                Runs-if (op2 == 0xAF) _ _ (from_rm Opcode.imul op_sz (IsOpSize-le s)) (
                  Runs-if (op2 == 0xA2) _ _ (leaf Opcode.cpuid) (
                    Runs-if (op2 == 0x31) _ _ (leaf Opcode.rdtsc) (
                      Runs-if (op2 == 0x05) _ _ (leaf Opcode.syscall) (
                        Runs-if (op2 == 0xBC) _ _ (from_rm Opcode.bsf op_sz (IsOpSize-le s)) (
                          Runs-if (op2 == 0xBD) _ _ (from_rm Opcode.bsr op_sz (IsOpSize-le s))
                            vector))))))))))
    where
      wide : (op : Opcode) → Runs IsInstruction (reg_rm out op 16)
      wide op = from_rm op 16 (omega arith)

      vector : Runs IsInstruction (
          if in_range 0xC8 0xCF op2
          then (do r ← opcode_reg (op2 - 0xC8) op_sz; pure (with1 out Opcode.bswap r))
          else if op2 == 0x1F
          then (do m ← decode_modrm op_sz; pure (record out { opcode = Opcode.nop; op0 = m.rm }))
          else if op2 == 0x10
          then reg_rm out Opcode.movups 16
          else if op2 == 0x11
          then rm_reg out Opcode.movups 16
          else if op2 == 0x28
          then reg_rm out Opcode.movaps 16
          else if op2 == 0x29
          then rm_reg out Opcode.movaps 16
          else if op2 == 0x57
          then reg_rm out Opcode.xorps 16
          else pure (with0 out Opcode.unknown))
      vector =
          Runs-range 0xC8 0xCF op2 _ _
            (λ lo hi.
              Runs-bind (opcode_reg _ op_sz) _
                (opcode_reg-Runs (op2 - 0xC8) op_sz (omega arith) (IsOpSize-le s))
                λ r w. Runs-pure _ (with1-valid out v Opcode.bswap r w))
            (Runs-if (op2 == 0x1F) _ _ nop-Runs (
              Runs-if (op2 == 0x10) _ _ (wide Opcode.movups) (
                Runs-if (op2 == 0x11) _ _ (rm_reg-Runs out v Opcode.movups 16 (omega arith)) (
                  Runs-if (op2 == 0x28) _ _ (wide Opcode.movaps) (
                    Runs-if (op2 == 0x29) _ _ (rm_reg-Runs out v Opcode.movaps 16 (omega arith))
                      (Runs-if (op2 == 0x57) _ _ (wide Opcode.xorps) (leaf Opcode.unknown)))))))

  sized-Runs :
      (quad word long : Opcode)
      → Runs IsInstruction (do c ← get_ctx; pure (with0 out (by_size c quad word long)))
  sized-Runs quad word long =
      Runs-bind get_ctx _ get_ctx-Runs λ c _. leaf (by_size c quad word long)

  int-Runs : Runs IsInstruction (do n ← fetch8; pure (with1 out Opcode.int (imm_operand n 1)))
  int-Runs = Runs-bind fetch8 _ fetch8-Runs λ n h.
      Runs-pure _
        (with1-valid out v Opcode.int _ (IsOperand-imm n 1 (IsByte→IsU64 n h) (omega arith)))

  imul-Runs :
      (b : Bool)
      → Runs IsInstruction (do
        m ← decode_modrm op_sz
        n ← (if b then fetch_simm8 else fetch_simm32)
        pure (record out {
          opcode = Opcode.imul;
          op0 = m.reg;
          op1 = m.rm;
          op2 = imm_operand n op_sz;
          num_operands = 3;
        }))
  imul-Runs b = Runs-bind (decode_modrm op_sz) _ (decode_modrm-Runs op_sz (IsOpSize-le s)) λ m w.
      Runs-bind (if b then fetch_simm8 else fetch_simm32) _
        (Runs-if b _ _ fetch_simm8-Runs fetch_simm32-Runs)
        λ n h. Runs-pure _ (record {
          op0_valid = w.1;
          op1_valid = w.0;
          op2_valid = IsOperand-imm n op_sz h (IsOpSize-le s);
          size_valid = v.size_valid;
          condition_fits = v.condition_fits;
        })

  pub decode_rest-Runs : (opcode : ℕ) → Runs IsInstruction (decode_rest opcode op_sz out)
  unfolding decode_rest
  decode_rest-Runs opcode =
      Runs-range 0x91 0x97 opcode _ _
        (λ lo hi.
          Runs-bind (opcode_reg _ op_sz) _
            (opcode_reg-Runs (opcode - 0x90) op_sz (omega arith) (IsOpSize-le s))
            λ r w. Runs-pure _ (
              with2-valid out v Opcode.xchg r _ w
                (IsOperand-reg 0 op_sz (omega arith) (IsOpSize-le s))))
        (Runs-if (opcode == 0x98) _ _ (sized-Runs Opcode.cdqe Opcode.cbw Opcode.cwde) (
          Runs-if (opcode == 0x99) _ _ (sized-Runs Opcode.cqo Opcode.cdq Opcode.cdq) (
            Runs-if (opcode == 0xCD) _ _ int-Runs (
              Runs-if (opcode == 0xCC) _ _
                (Runs-pure _
                  (with1-valid out v Opcode.int _ (IsOperand-imm 3 1 (omega arith) (omega arith))))
                (Runs-if (opcode == 0xF4) _ _ (leaf Opcode.hlt) (
                  Runs-if (opcode == 0xF8) _ _ (leaf Opcode.clc) (
                    Runs-if (opcode == 0xF9) _ _ (leaf Opcode.stc) (
                      Runs-if (opcode == 0xF5) _ _ (leaf Opcode.cmc) (
                        Runs-if (opcode == 0xFC) _ _ (leaf Opcode.cld) (
                          Runs-if (opcode == 0xFD) _ _ (leaf Opcode.std)
                            (Runs-if (opcode == 0xA4) _ _ (leaf Opcode.movsb) strings)))))))))))
    where
      strings : Runs IsInstruction (
          if opcode == 0xA5
          then (do
            c ← get_ctx
            pure (with0 out (by_size c Opcode.movsq Opcode.movsw Opcode.movsd_str)))
          else if opcode == 0xAA
          then pure (with0 out Opcode.stosb)
          else if opcode == 0xAB
          then (do c ← get_ctx; pure (with0 out (by_size c Opcode.stosq Opcode.stosw Opcode.stosd)))
          else if (opcode == 0x69) || (opcode == 0x6B)
          then (do
            m ← decode_modrm op_sz
            n ← (if opcode == 0x6B then fetch_simm8 else fetch_simm32)
            pure (record out {
              opcode = Opcode.imul;
              op0 = m.reg;
              op1 = m.rm;
              op2 = imm_operand n op_sz;
              num_operands = 3;
            }))
          else if opcode == 0x0F
          then (do op2 ← fetch8; decode_two_byte op2 op_sz out)
          else pure (with0 out Opcode.unknown))
      strings =
          Runs-if (opcode == 0xA5) _ _ (sized-Runs Opcode.movsq Opcode.movsw Opcode.movsd_str) (
            Runs-if (opcode == 0xAA) _ _ (leaf Opcode.stosb) (
              Runs-if (opcode == 0xAB) _ _ (sized-Runs Opcode.stosq Opcode.stosw Opcode.stosd) (
                Runs-if ((opcode == 0x69) || (opcode == 0x6B)) _ _ (imul-Runs (opcode == 0x6B)) (
                  Runs-if (opcode == 0x0F) _ _
                    (Runs-bind fetch8 _ fetch8-Runs λ op2 _. decode_two_byte-Runs op2)
                    (leaf Opcode.unknown)))))
