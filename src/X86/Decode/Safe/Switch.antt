-- ===== src/X86/Decode/Safe/Switch.antt =====
-- The opcode switch of `wg_x86_decode`: every case gives a valid instruction, inside the buffer.
use wine_glass.Base.{
  ℕ, ◌-◌, ◌^◌, ◌≤◌, ◌<◌, Bool, true, false, ◌||◌, ◌==◌, leb, if◌then◌else◌, arith, bit_and, bit_or,
}
use wine_glass.Base.Bits.{bit_or-lt}
use wine_glass.X86.Decode.Types.{
  Opcode, Operand, Instruction, IsOperand, IsInstruction, reg_operand, imm_operand,
}
use wine_glass.X86.Decode.Fetch.{
  Decoder, pure, ◌>>=◌, fetch8, fetch16, fetch32, fetch64, fetch_simm8, fetch_simm32, get_ctx,
  decode_modrm,
}
use wine_glass.X86.Decode.Opcodes.{in_range, alu_op, with0, with1, with2, opcode_reg, immediate}
use wine_glass.X86.Decode.Switch.{
  group_ff, group_f6, shift_count, is_shift, is_byte_shift, decode_groups, decode_flow, is_alu,
  decode_alu_row, decode_alu, move_immediate, decode_opcode,
}
use wine_glass.X86.Decode.Safe.{Runs, Runs-pure, Runs-if, Runs-bind, Runs-weaken}
use wine_glass.X86.Decode.Safe.Fetches.{
  fetch8-Runs, fetch16-Runs, fetch32-Runs, fetch64-Runs, fetch_simm8-Runs, fetch_simm32-Runs,
  get_ctx-Runs, sext-lt,
}
use wine_glass.X86.Decode.Safe.Operands.{
  IsOperand-reg, IsOperand-imm, IsOperand-size, decode_modrm-Runs,
}
use wine_glass.X86.Decode.Safe.Rest.{decode_rest-Runs}
use wine_glass.X86.Decode.Safe.Rows.{
  IsOpSize, IsOpSize-le, byte_or-le, IsByte→IsU64, with0-valid, with1-valid, with2-valid,
  condition-valid, rm_reg-Runs, reg_rm-Runs, relative-Runs, opcode_reg-Runs, immediate-Runs,
  Runs-range,
}

shift_count-Runs : (opcode : ℕ) → Runs IsOperand (shift_count opcode)
unfolding shift_count
shift_count-Runs opcode =
    Runs-if ((opcode == 0xC0) || (opcode == 0xC1)) _ _
      (Runs-bind fetch8 _ fetch8-Runs
        λ v h. Runs-pure _ (IsOperand-imm v 1 (IsByte→IsU64 v h) (omega arith)))
      (Runs-if ((opcode == 0xD0) || (opcode == 0xD1)) _ _
        (Runs-pure _ (IsOperand-imm 1 1 (omega arith) (omega arith)))
        (Runs-pure _ (IsOperand-reg 1 1 (omega arith) (omega arith))))

module _ (out : Instruction) (v : IsInstruction out) (op_sz : ℕ) (s : IsOpSize op_sz) where
  group_ff-valid : (grp : ℕ) (rm : Operand) → IsOperand rm → IsInstruction (group_ff grp out rm)
  group_ff-valid grp rm w = valid-if (grp == 0) _ _ (with1-valid out v Opcode.inc rm w) (
      valid-if (grp == 1) _ _ (with1-valid out v Opcode.dec rm w) (
        valid-if (grp == 2) _ _ (with1-valid out v Opcode.call _ wide) (
          valid-if (grp == 4) _ _ (with1-valid out v Opcode.jmp _ wide) (
            valid-if (grp == 6) _ _ (with1-valid out v Opcode.push _ wide)
              (with1-valid out v Opcode.unknown rm w)))))
    where
      wide : IsOperand (record rm { size = 8 })
      wide = IsOperand-size rm 8 (omega arith) w

      valid-if :
          (b : Bool) (i j : Instruction)
          → IsInstruction i
          → IsInstruction j
          → IsInstruction (if b then i else j)
      valid-if true i j h k = h
      valid-if false i j h k = k

  group_f6-Runs :
      (grp sz : ℕ) (rm : Operand)
      → sz ≤ 16
      → IsOperand rm
      → Runs IsInstruction (group_f6 grp sz out rm)
  unfolding group_f6
  group_f6-Runs grp sz rm h w =
      Runs-if (leb grp 1) _ _
        (Runs-bind (if sz == 1 then fetch8 else fetch_simm32) _
          (Runs-if (sz == 1) _ _ (Runs-weaken fetch8 fetch8-Runs IsByte→IsU64) fetch_simm32-Runs)
          λ n k. Runs-pure _ (with2-valid out v Opcode.test rm _ w (IsOperand-imm n sz k h)))
        (Runs-if (grp == 2) _ _ (unary Opcode.not) (
          Runs-if (grp == 3) _ _ (unary Opcode.neg) (
            Runs-if (grp == 4) _ _ (unary Opcode.mul) (
              Runs-if (grp == 5) _ _ (unary Opcode.imul)
                (Runs-if (grp == 6) _ _ (unary Opcode.div) (unary Opcode.idiv))))))
    where
      unary : (op : Opcode) → Runs IsInstruction (pure (with1 out op rm))
      unary op = Runs-pure _ (with1-valid out v op rm w)

  decode_groups-Runs : (opcode : ℕ) → Runs IsInstruction (decode_groups opcode op_sz out)
  unfolding decode_groups
  decode_groups-Runs opcode =
      Runs-if (opcode == 0xC9) _ _ (Runs-pure _ (with0-valid out v Opcode.leave)) (
        Runs-if (opcode == 0xFF) _ _
          (Runs-bind (decode_modrm op_sz) _ (decode_modrm-Runs op_sz (IsOpSize-le s))
            λ m w. Runs-pure _ (group_ff-valid (bit_and m.reg.reg_index 7) m.rm w.0))
          (Runs-if (in_range 0xF6 0xF7 opcode) _ _
            (Runs-bind (decode_modrm _) _ (decode_modrm-Runs _ (byte_or-le (opcode == 0xF6) s))
              λ m w. group_f6-Runs _ _ m.rm (byte_or-le (opcode == 0xF6) s) w.0)
            (Runs-if (is_shift opcode) _ _
              (Runs-bind (decode_modrm _) _
                (decode_modrm-Runs _ (byte_or-le (is_byte_shift opcode) s))
                λ m w.
                  Runs-bind (shift_count opcode) _ (shift_count-Runs opcode)
                    λ count k. Runs-pure _ (with2-valid out v _ m.rm count w.0 k))
              (decode_rest-Runs out v op_sz s opcode))))

  push_imm-Runs :
      (fetch : Decoder ℕ)
      → Runs (λ n. n < 2 ^ 64) fetch
      → Runs IsInstruction (do n ← fetch; pure (with1 out Opcode.push (imm_operand n 8)))
  push_imm-Runs fetch h =
      Runs-bind fetch _ h
        λ n k. Runs-pure _ (with1-valid out v Opcode.push _ (IsOperand-imm n 8 k (omega arith)))

  stack_reg-Runs :
      (op : Opcode) (field : ℕ)
      → field < 8
      → Runs IsInstruction (do r ← opcode_reg field 8; pure (with1 out op r))
  stack_reg-Runs op field h =
      Runs-bind (opcode_reg field 8) _ (opcode_reg-Runs field 8 h (omega arith))
        λ r w. Runs-pure _ (with1-valid out v op r w)

  ret-valid : IsInstruction (record out { opcode = Opcode.ret; num_operands = 0 })
  ret-valid = record {
    op0_valid = v.op0_valid;
    op1_valid = v.op1_valid;
    op2_valid = v.op2_valid;
    size_valid = v.size_valid;
    condition_fits = v.condition_fits;
  }

  decode_flow-Runs : (opcode : ℕ) → Runs IsInstruction (decode_flow opcode op_sz out)
  unfolding decode_flow
  decode_flow-Runs opcode =
      Runs-range 0x50 0x57 opcode _ _
        (λ lo hi. stack_reg-Runs Opcode.push (opcode - 0x50) (omega arith))
        (Runs-range 0x58 0x5F opcode _ _
          (λ lo hi. stack_reg-Runs Opcode.pop (opcode - 0x58) (omega arith))
          (Runs-if (opcode == 0x6A) _ _ (push_imm-Runs fetch_simm8 fetch_simm8-Runs) (
            Runs-if (opcode == 0x68) _ _ (push_imm-Runs fetch_simm32 fetch_simm32-Runs) (
              Runs-if (opcode == 0x8D) _ _ (reg_rm-Runs out v Opcode.lea op_sz (IsOpSize-le s)) (
                Runs-range 0x70 0x7F opcode _ _
                  (λ lo hi.
                    relative-Runs _ (condition-valid out v (opcode - 0x70) (omega arith)) Opcode.jcc
                      _ fetch_simm8-Runs)
                  (Runs-if (opcode == 0xEB) _ _ (relative-Runs out v Opcode.jmp _ fetch_simm8-Runs)
                    (Runs-if (opcode == 0xE9) _ _
                      (relative-Runs out v Opcode.jmp _ fetch_simm32-Runs)
                      (Runs-if (opcode == 0xE8) _ _
                        (relative-Runs out v Opcode.call _ fetch_simm32-Runs)
                        (Runs-if (opcode == 0xC3) _ _ (Runs-pure _ ret-valid) (
                          Runs-if (opcode == 0xC2) _ _
                            (Runs-bind fetch16 _ fetch16-Runs λ n k.
                              Runs-pure _ (
                                with1-valid out v Opcode.ret _ (IsOperand-imm n 2 k (omega arith))))
                            (decode_groups-Runs opcode)))))))))))

  acc_imm-Runs :
      (op : Opcode) (size : ℕ) (fetch : Decoder ℕ)
      → size ≤ 16
      → Runs (λ n. n < 2 ^ 64) fetch
      → Runs IsInstruction
          (do n ← fetch; pure (with2 out op (reg_operand 0 size) (imm_operand n size)))
  acc_imm-Runs op size fetch h k = Runs-bind fetch _ k λ n b.
      Runs-pure _
        (with2-valid out v op _ _ (IsOperand-reg 0 size (omega arith) h) (IsOperand-imm n size b h))

  decode_alu_row-Runs : (opcode : ℕ) → Runs IsInstruction (decode_alu_row opcode op_sz out)
  unfolding decode_alu_row
  decode_alu_row-Runs opcode =
      let sub = bit_and opcode 7 in
      Runs-if (leb sub 1) _ _ (rm_reg-Runs out v _ _ (byte_or-le (sub == 0) s)) (
        Runs-if (leb sub 3) _ _ (reg_rm-Runs out v _ _ (byte_or-le (sub == 2) s)) (
          Runs-if (sub == 4) _ _
            (Runs-bind (immediate 1) _ (immediate-Runs 1 (omega arith)) λ n w.
              Runs-pure _
                (with2-valid out v _ _ n (IsOperand-reg 0 1 (omega arith) (omega arith)) w))
            (acc_imm-Runs _ op_sz fetch_simm32 (IsOpSize-le s) fetch_simm32-Runs)))

  group_80-Runs :
      (sz : ℕ) (short : Bool)
      → sz ≤ 16
      → Runs IsInstruction (do
        m ← decode_modrm sz
        n ← (if short then (do b ← fetch_simm8; pure (imm_operand b sz)) else immediate sz)
        pure (with2 out (alu_op (bit_and m.reg.reg_index 7)) m.rm n))
  group_80-Runs sz short h = Runs-bind (decode_modrm sz) _ (decode_modrm-Runs sz h) λ m w.
      Runs-bind (if short then (do b ← fetch_simm8; pure (imm_operand b sz)) else immediate sz) _
        (Runs-if short _ _
          (Runs-bind fetch_simm8 _ fetch_simm8-Runs λ b k. Runs-pure _ (IsOperand-imm b sz k h))
          (immediate-Runs sz h))
        λ n k. Runs-pure _ (with2-valid out v _ m.rm n w.0 k)

  decode_alu-Runs : (opcode : ℕ) → Runs IsInstruction (decode_alu opcode op_sz out)
  unfolding decode_alu
  decode_alu-Runs opcode =
      Runs-if (in_range 0x80 0x83 opcode) _ _
        (group_80-Runs _ (opcode == 0x83) (byte_or-le ((opcode == 0x80) || (opcode == 0x82)) s))
        (Runs-if (is_alu opcode) _ _ (decode_alu_row-Runs opcode) (
          Runs-if (in_range 0x84 0x85 opcode) _ _
            (rm_reg-Runs out v Opcode.test _ (byte_or-le (opcode == 0x84) s))
            (Runs-if (opcode == 0xA8) _ _
              (acc_imm-Runs Opcode.test 1 fetch8 (omega arith)
                (Runs-weaken fetch8 fetch8-Runs IsByte→IsU64))
              (Runs-if (opcode == 0xA9) _ _
                (acc_imm-Runs Opcode.test op_sz fetch_simm32 (IsOpSize-le s) fetch_simm32-Runs)
                (decode_flow-Runs opcode)))))

  move_immediate-Runs : Runs IsOperand (move_immediate op_sz)
  unfolding move_immediate
  move_immediate-Runs = Runs-bind get_ctx _ get_ctx-Runs λ c _.
      Runs-if (c.rex_w == 0) _ _
        (Runs-bind fetch32 _ fetch32-Runs
          λ n h. Runs-pure _ (IsOperand-imm _ op_sz (sext-lt 32 n (omega arith) h) (IsOpSize-le s)))
        (Runs-bind fetch64 _ fetch64-Runs λ n h. Runs-pure _ (IsOperand-imm n 8 h (omega arith)))

  nop_or_xchg-Runs : Runs IsInstruction (do
    c ← get_ctx
    pure (
        if c.rex_present
        then with2 out Opcode.xchg (reg_operand (bit_or 0 c.rex_b) op_sz) (reg_operand 0 op_sz)
        else with0 out Opcode.nop))
  nop_or_xchg-Runs = Runs-bind get_ctx _ get_ctx-Runs λ c h. Runs-pure _ (
      both c.rex_present (bit_or 0 c.rex_b)
        (bit_or-lt 4 0 c.rex_b (omega arith) (omega (arith, h.b_bit))))
    where
      both :
          (b : Bool) (r : ℕ)
          → r < 16
          → IsInstruction (
              if b
              then with2 out Opcode.xchg (reg_operand r op_sz) (reg_operand 0 op_sz)
              else with0 out Opcode.nop)
      both true r h =
          with2-valid out v Opcode.xchg _ _ (IsOperand-reg r op_sz h (IsOpSize-le s))
            (IsOperand-reg 0 op_sz (omega arith) (IsOpSize-le s))
      both false r h = with0-valid out v Opcode.nop

  pub decode_opcode-Runs : (opcode : ℕ) → Runs IsInstruction (decode_opcode opcode op_sz out)
  unfolding decode_opcode
  decode_opcode-Runs opcode = Runs-if (opcode == 0x90) _ _ nop_or_xchg-Runs (
      Runs-if (in_range 0x88 0x89 opcode) _ _
        (rm_reg-Runs out v Opcode.mov _ (byte_or-le (opcode == 0x88) s))
        (Runs-if (in_range 0x8A 0x8B opcode) _ _
          (reg_rm-Runs out v Opcode.mov _ (byte_or-le (opcode == 0x8A) s))
          (Runs-range 0xB0 0xB7 opcode _ _
            (λ lo hi.
              Runs-bind (opcode_reg _ 1) _
                (opcode_reg-Runs (opcode - 0xB0) 1 (omega arith) (omega arith))
                λ r w. Runs-bind fetch8 _ fetch8-Runs λ n h. Runs-pure _ (
                  with2-valid out v Opcode.mov r _ w
                    (IsOperand-imm n 1 (IsByte→IsU64 n h) (omega arith))))
            (Runs-range 0xB8 0xBF opcode _ _
              (λ lo hi.
                Runs-bind (opcode_reg _ op_sz) _
                  (opcode_reg-Runs (opcode - 0xB8) op_sz (omega arith) (IsOpSize-le s))
                  λ r w.
                    Runs-bind (move_immediate op_sz) _ move_immediate-Runs
                      λ n h. Runs-pure _ (with2-valid out v Opcode.mov r n w h))
              (Runs-if (in_range 0xC6 0xC7 opcode) _ _
                (Runs-bind (decode_modrm _) _ (decode_modrm-Runs _ (byte_or-le (opcode == 0xC6) s))
                  λ m w.
                    Runs-bind (immediate _) _ (immediate-Runs _ (byte_or-le (opcode == 0xC6) s))
                      λ n h. Runs-pure _ (with2-valid out v Opcode.mov m.rm n w.0 h))
                (decode_alu-Runs opcode))))))
