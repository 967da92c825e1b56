-- ===== src/X86/Decode/Switch.antt =====
-- The one-byte cases of the opcode switch of `wg_x86_decode`, in the order of the source up to the
-- shift group; the later cases stand in `Opcodes`.
use wine_glass.Base.{ℕ, ◌-◌, Bool, ◌&&◌, ◌||◌, ◌==◌, leb, if◌then◌else◌, bit_and, bit_or}
use wine_glass.Base.Words.{sext, ◌>>>◌}
use wine_glass.X86.Decode.Types.{Opcode, Operand, Instruction, reg_operand, imm_operand}
use wine_glass.X86.Decode.Fetch.{
  Decoder, pure, ◌>>=◌, fetch8, fetch16, fetch32, fetch64, fetch_simm8, fetch_simm32, get_ctx,
  decode_modrm,
}
use wine_glass.X86.Decode.Opcodes.{
  in_range, alu_op, shift_op, with0, with1, with2, rm_reg, reg_rm, opcode_reg, immediate, byte_or,
  relative, decode_rest,
}

-- What the groups FF and F6 do with the bits 3 to 5 of their ModR/M byte.
abbrev pub group_ff : ℕ → Instruction → Operand → Instruction
group_ff grp out rm =
    if grp == 0
    then with1 out Opcode.inc rm
    else if grp == 1
    then with1 out Opcode.dec rm
    else if grp == 2
    then with1 out Opcode.call (record rm { size = 8 })
    else if grp == 4
    then with1 out Opcode.jmp (record rm { size = 8 })
    else if grp == 6
    then with1 out Opcode.push (record rm { size = 8 })
    else with1 out Opcode.unknown rm

unfoldable pub group_f6 : ℕ → ℕ → Instruction → Operand → Decoder Instruction
group_f6 grp sz out rm =
    if leb grp 1
    then (do
      v ← (if sz == 1 then fetch8 else fetch_simm32)
      pure (with2 out Opcode.test rm (imm_operand v sz)))
    else if grp == 2
    then pure (with1 out Opcode.not rm)
    else if grp == 3
    then pure (with1 out Opcode.neg rm)
    else if grp == 4
    then pure (with1 out Opcode.mul rm)
    else if grp == 5
    then pure (with1 out Opcode.imul rm)
    else if grp == 6
    then pure (with1 out Opcode.div rm)
    else pure (with1 out Opcode.idiv rm)

-- The count of a shift: an immediate, 1, or CL.
unfoldable pub shift_count : ℕ → Decoder Operand
shift_count opcode =
    if (opcode == 0xC0) || (opcode == 0xC1)
    then (do v ← fetch8; pure (imm_operand v 1))
    else if (opcode == 0xD0) || (opcode == 0xD1)
    then pure (imm_operand 1 1)
    else pure (reg_operand 1 1)

abbrev pub is_shift : ℕ → Bool
is_shift opcode = in_range 0xC0 0xC1 opcode || in_range 0xD0 0xD3 opcode

abbrev pub is_byte_shift : ℕ → Bool
is_byte_shift opcode = (opcode == 0xC0) || (opcode == 0xD0) || (opcode == 0xD2)

-- LEAVE, and the groups FF, F6, F7 and the shifts.
unfoldable pub decode_groups : ℕ → ℕ → Instruction → Decoder Instruction
decode_groups opcode op_sz out =
    if opcode == 0xC9
    then pure (with0 out Opcode.leave)
    else if opcode == 0xFF
    then (do m ← decode_modrm op_sz; pure (group_ff (bit_and m.reg.reg_index 7) out m.rm))
    else if in_range 0xF6 0xF7 opcode
    then (do
      m ← decode_modrm (byte_or (opcode == 0xF6) op_sz)
      group_f6 (bit_and m.reg.reg_index 7) (byte_or (opcode == 0xF6) op_sz) out m.rm)
    else if is_shift opcode
    then (do
      m ← decode_modrm (byte_or (is_byte_shift opcode) op_sz)
      count ← shift_count opcode
      pure (with2 out (shift_op (bit_and m.reg.reg_index 7)) m.rm count))
    else decode_rest opcode op_sz out

-- PUSH, POP, LEA, the jumps, CALL and RET.
unfoldable pub decode_flow : ℕ → ℕ → Instruction → Decoder Instruction
decode_flow opcode op_sz out =
    if in_range 0x50 0x57 opcode
    then (do r ← opcode_reg (opcode - 0x50) 8; pure (with1 out Opcode.push r))
    else if in_range 0x58 0x5F opcode
    then (do r ← opcode_reg (opcode - 0x58) 8; pure (with1 out Opcode.pop r))
    else if opcode == 0x6A
    then (do v ← fetch_simm8; pure (with1 out Opcode.push (imm_operand v 8)))
    else if opcode == 0x68
    then (do v ← fetch_simm32; pure (with1 out Opcode.push (imm_operand v 8)))
    else if opcode == 0x8D
    then reg_rm out Opcode.lea op_sz
    else if in_range 0x70 0x7F opcode
    then relative (record out { condition = opcode - 0x70 }) Opcode.jcc fetch_simm8
    else if opcode == 0xEB
    then relative out Opcode.jmp fetch_simm8
    else if opcode == 0xE9
    then relative out Opcode.jmp fetch_simm32
    else if opcode == 0xE8
    then relative out Opcode.call fetch_simm32
    else if opcode == 0xC3
    then pure (record out { opcode = Opcode.ret; num_operands = 0 })
    else if opcode == 0xC2
    then (do v ← fetch16; pure (with1 out Opcode.ret (imm_operand v 2)))
    else decode_groups opcode op_sz out

-- The rows 00 to 3D: eight operations, six operand forms each.
abbrev pub is_alu : ℕ → Bool
is_alu opcode = leb opcode 0x3D && leb (bit_and opcode 7) 5

unfoldable pub decode_alu_row : ℕ → ℕ → Instruction → Decoder Instruction
decode_alu_row opcode op_sz out =
    let op = alu_op (bit_and (opcode >>> 3) 7) in
    let sub = bit_and opcode 7 in
    if leb sub 1
    then rm_reg out op (byte_or (sub == 0) op_sz)
    else if leb sub 3
    then reg_rm out op (byte_or (sub == 2) op_sz)
    else if sub == 4
    then (do v ← immediate 1; pure (with2 out op (reg_operand 0 1) v))
    else (do v ← fetch_simm32; pure (with2 out op (reg_operand 0 op_sz) (imm_operand v op_sz)))

-- Group 80 to 83, the ALU rows, and TEST.
unfoldable pub decode_alu : ℕ → ℕ → Instruction → Decoder Instruction
decode_alu opcode op_sz out =
    if in_range 0x80 0x83 opcode
    then (do
      let sz = byte_or ((opcode == 0x80) || (opcode == 0x82)) op_sz
      m ← decode_modrm sz
      v ← (if opcode == 0x83 then (do b ← fetch_simm8; pure (imm_operand b sz)) else immediate sz)
      pure (with2 out (alu_op (bit_and m.reg.reg_index 7)) m.rm v))
    else if is_alu opcode
    then decode_alu_row opcode op_sz out
    else if in_range 0x84 0x85 opcode
    then rm_reg out Opcode.test (byte_or (opcode == 0x84) op_sz)
    else if opcode == 0xA8
    then (do v ← fetch8; pure (with2 out Opcode.test (reg_operand 0 1) (imm_operand v 1)))
    else if opcode == 0xA9
    then (do
      v ← fetch_simm32
      pure (with2 out Opcode.test (reg_operand 0 op_sz) (imm_operand v op_sz)))
    else decode_flow opcode op_sz out

-- The immediate of B8 to BF: eight bytes under REX.W, else four.
unfoldable pub move_immediate : ℕ → Decoder Operand
move_immediate op_sz = do
  c ← get_ctx
  if c.rex_w == 0
      then (do v ← fetch32; pure (imm_operand (sext 32 v) op_sz))
      else (do v ← fetch64; pure (imm_operand v 8))

-- NOP and the MOVs.
unfoldable pub decode_opcode : ℕ → ℕ → Instruction → Decoder Instruction
decode_opcode opcode op_sz out =
    if opcode == 0x90
    then (do
      c ← get_ctx
      pure (
          if c.rex_present
          then with2 out Opcode.xchg (reg_operand (bit_or 0 c.rex_b) op_sz) (reg_operand 0 op_sz)
          else with0 out Opcode.nop))
    else if in_range 0x88 0x89 opcode
    then rm_reg out Opcode.mov (byte_or (opcode == 0x88) op_sz)
    else if in_range 0x8A 0x8B opcode
    then reg_rm out Opcode.mov (byte_or (opcode == 0x8A) op_sz)
    else if in_range 0xB0 0xB7 opcode
    then (do
      r ← opcode_reg (opcode - 0xB0) 1
      v ← fetch8
      pure (with2 out Opcode.mov r (imm_operand v 1)))
    else if in_range 0xB8 0xBF opcode
    then (do
      r ← opcode_reg (opcode - 0xB8) op_sz
      v ← move_immediate op_sz
      pure (with2 out Opcode.mov r v))
    else if in_range 0xC6 0xC7 opcode
    then (do
      let sz = byte_or (opcode == 0xC6) op_sz
      m ← decode_modrm sz
      v ← immediate sz
      pure (with2 out Opcode.mov m.rm v))
    else decode_alu opcode op_sz out
