-- ===== src/X86/Decode/Opcodes.antt =====
-- The opcode switch of `wg_x86_decode` in Sources/CPU/wg_x86_decode.c. Its cases are disjoint, so
-- the ladders below test them in the order of the source, and each ends in the next one. `op_sz`
-- is `effective_op_size`, and `out` the instruction with its prefix fields filled in.
use wine_glass.Base.{ℕ, ◌+◌, ◌-◌, Bool, ◌&&◌, ◌||◌, ◌==◌, leb, if◌then◌else◌}
use wine_glass.Base.Words.{u64}
use wine_glass.X86.Decode.Types.{
  Opcode, Operand, Instruction, reg_operand, imm_operand, rel_operand,
}
use wine_glass.X86.Decode.Fetch.{
  Ctx, Decoder, pure, ◌>>=◌, fetch8, fetch_simm8, fetch_simm32, get_ctx, here, with_rex,
  decode_modrm,
}

abbrev pub in_range : ℕ → ℕ → ℕ → Bool
in_range lo hi x = leb lo x && leb x hi

-- The operation of the ALU rows and of group 80 to 83.
abbrev pub alu_op : ℕ → Opcode
alu_op grp =
    if grp == 0
    then Opcode.add
    else if grp == 1
    then Opcode.or
    else if grp == 2
    then Opcode.adc
    else if grp == 3
    then Opcode.sbb
    else if grp == 4
    then Opcode.and
    else if grp == 5
    then Opcode.sub
    else if grp == 6
    then Opcode.xor
    else Opcode.cmp

abbrev pub shift_op : ℕ → Opcode
shift_op grp =
    if grp == 0
    then Opcode.rol
    else if grp == 1
    then Opcode.ror
    else if grp == 4
    then Opcode.shl
    else if grp == 5
    then Opcode.shr
    else if grp == 6
    then Opcode.shl
    else if grp == 7
    then Opcode.sar
    else Opcode.unknown

-- Instructions with no, one or two operands.
abbrev pub with0 : Instruction → Opcode → Instruction
with0 out op = record out { opcode = op }

abbrev pub with1 : Instruction → Opcode → Operand → Instruction
with1 out op a = record out { opcode = op; op0 = a; num_operands = 1 }

abbrev pub with2 : Instruction → Opcode → Operand → Operand → Instruction
with2 out op a b = record out { opcode = op; op0 = a; op1 = b; num_operands = 2 }

-- `decode_modrm(c, &operands[0], &operands[1], sz)`, and with the operands the other way round.
unfoldable pub rm_reg : Instruction → Opcode → ℕ → Decoder Instruction
rm_reg out op sz = do m ← decode_modrm sz; pure (with2 out op m.rm m.reg)

unfoldable pub reg_rm : Instruction → Opcode → ℕ → Decoder Instruction
reg_rm out op sz = do m ← decode_modrm sz; pure (with2 out op m.reg m.rm)

-- A register whose three bits stand in the opcode.
unfoldable pub opcode_reg : ℕ → ℕ → Decoder Operand
opcode_reg field sz = do c ← get_ctx; pure (reg_operand (with_rex field c.rex_b) sz)

-- An immediate of `sz` bytes: one byte, or four that are sign-extended.
unfoldable pub immediate : ℕ → Decoder Operand
immediate sz =
    if sz == 1
    then (do v ← fetch_simm8; pure (imm_operand v 1))
    else (do v ← fetch_simm32; pure (imm_operand v sz))

abbrev pub byte_or : Bool → ℕ → ℕ
byte_or is_byte sz = if is_byte then 1 else sz

-- A jump or call relative to the end of the instruction.
unfoldable pub relative : Instruction → Opcode → Decoder ℕ → Decoder Instruction
relative out op fetch = do
  rel ← fetch
  c ← get_ctx
  pure (with1 out op (rel_operand (u64 (here c + rel))))

-- Cases 0F xx.
unfoldable pub decode_two_byte : ℕ → ℕ → Instruction → Decoder Instruction
decode_two_byte op2 op_sz out =
    if in_range 0x80 0x8F op2
    then relative (record out { condition = op2 - 0x80 }) Opcode.jcc fetch_simm32
    else if in_range 0x90 0x9F op2
    then (do
      m ← decode_modrm 1
      pure (with1 (record out { condition = op2 - 0x90 }) Opcode.setcc m.rm))
    else if in_range 0x40 0x4F op2
    then reg_rm (record out { condition = op2 - 0x40 }) Opcode.cmovcc op_sz
    else if in_range 0xB6 0xB7 op2
    then (do
      m ← decode_modrm (if op2 == 0xB6 then 1 else 2)
      pure (with2 out Opcode.movzx (record m.reg { size = op_sz }) m.rm))
    else if in_range 0xBE 0xBF op2
    then (do
      m ← decode_modrm (if op2 == 0xBE then 1 else 2)
      pure (with2 out Opcode.movsx (record m.reg { size = op_sz }) m.rm))
    else if op2 == 0xAF
    then reg_rm out Opcode.imul op_sz
    else if op2 == 0xA2
    then pure (with0 out Opcode.cpuid)
    else if op2 == 0x31
    then pure (with0 out Opcode.rdtsc)
    else if op2 == 0x05
    then pure (with0 out Opcode.syscall)
    else if op2 == 0xBC
    then reg_rm out Opcode.bsf op_sz
    else if op2 == 0xBD
    then reg_rm out Opcode.bsr op_sz
    else if in_range 0xC8 0xCF op2
    then (do r ← opcode_reg (op2 - 0xC8) op_sz; pure (with1 out Opcode.bswap r))
    else if op2 == 0x1F
    then (do m ← decode_modrm op_sz; pure (record out { opcode = Opcode.nop; op0 = m.rm }))
    else if op2 == 0x10
    then reg_rm out Opcode.movups 16
    else if op2 == 0x11
    then rm_reg out Opcode.movups 16
    else if op2 == 0x28
    then reg_rm out Opcode.movaps 16
    else if op2 == 0x29
    then rm_reg out Opcode.movaps 16
    else if op2 == 0x57
    then reg_rm out Opcode.xorps 16
    else pure (with0 out Opcode.unknown)

abbrev pub by_size : Ctx → Opcode → Opcode → Opcode → Opcode
by_size c quad word long = if c.rex_w == 0 then (if c.has_66 then word else long) else quad

-- 91 to 97, 98 and 99, interrupts, HLT, flag and string operations, IMUL, 0F.
unfoldable pub decode_rest : ℕ → ℕ → Instruction → Decoder Instruction
decode_rest opcode op_sz out =
    if in_range 0x91 0x97 opcode
    then (do
      r ← opcode_reg (opcode - 0x90) op_sz
      pure (with2 out Opcode.xchg r (reg_operand 0 op_sz)))
    else if opcode == 0x98
    then (do c ← get_ctx; pure (with0 out (by_size c Opcode.cdqe Opcode.cbw Opcode.cwde)))
    else if opcode == 0x99
    then (do c ← get_ctx; pure (with0 out (by_size c Opcode.cqo Opcode.cdq Opcode.cdq)))
    else if opcode == 0xCD
    then (do v ← fetch8; pure (with1 out Opcode.int (imm_operand v 1)))
    else if opcode == 0xCC
    then pure (with1 out Opcode.int (imm_operand 3 1))
    else if opcode == 0xF4
    then pure (with0 out Opcode.hlt)
    else if opcode == 0xF8
    then pure (with0 out Opcode.clc)
    else if opcode == 0xF9
    then pure (with0 out Opcode.stc)
    else if opcode == 0xF5
    then pure (with0 out Opcode.cmc)
    else if opcode == 0xFC
    then pure (with0 out Opcode.cld)
    else if opcode == 0xFD
    then pure (with0 out Opcode.std)
    else if opcode == 0xA4
    then pure (with0 out Opcode.movsb)
    else if opcode == 0xA5
    then (do c ← get_ctx; pure (with0 out (by_size c Opcode.movsq Opcode.movsw Opcode.movsd_str)))
    else if opcode == 0xAA
    then pure (with0 out Opcode.stosb)
    else if opcode == 0xAB
    then (do c ← get_ctx; pure (with0 out (by_size c Opcode.stosq Opcode.stosw Opcode.stosd)))
    else if (opcode == 0x69) || (opcode == 0x6B)
    then (do
      m ← decode_modrm op_sz
      v ← (if opcode == 0x6B then fetch_simm8 else fetch_simm32)
      pure (record out {
        opcode = Opcode.imul;
        op0 = m.reg;
        op1 = m.rm;
        op2 = imm_operand v op_sz;
        num_operands = 3;
      }))
    else if opcode == 0x0F
    then (do op2 ← fetch8; decode_two_byte op2 op_sz out)
    else pure (with0 out Opcode.unknown)
