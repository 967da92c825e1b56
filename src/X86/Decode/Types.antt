-- ===== src/X86/Decode/Types.antt =====
-- Sources/CPU/wg_x86_decode.h: opcodes, operands and instructions. The `int64_t` fields `mem_disp`
-- and `imm` are 64-bit patterns. The sentinels of `mem_base` (-2 and -1), `mem_index` (-1) and the
-- segment override (-1) are constructors.
use wine_glass.Base.{ℕ, ◌<◌, ◌≤◌, ◌^◌, ◌≡◌, ◌⊎◌, Bool, false, Option, none, some}

pub data Opcode : Type 0 where
  unknown nop : Opcode
  mov movzx movsx lea xchg : Opcode
  push pop : Opcode
  add sub adc sbb : Opcode
  and or xor not neg : Opcode
  inc dec : Opcode
  cmp test : Opcode
  shl shr sar rol ror : Opcode
  imul mul idiv div : Opcode
  jmp jcc call ret : Opcode
  cmovcc setcc : Opcode
  cqo cdq cbw cwde cdqe : Opcode
  movsb movsw movsd_str movsq : Opcode
  stosb stosw stosd stosq : Opcode
  rep leave : Opcode
  int syscall hlt : Opcode
  cpuid rdtsc bswap : Opcode
  bsf bsr bt bts btr btc : Opcode
  movd_xmm movq_xmm movaps movups xorps : Opcode
  clc stc cmc cld std : Opcode

pub data OperandType : Type 0 where
  no_operand reg mem imm rel : OperandType

-- A register, -1 (no base) or -2 (`mem_disp` is the whole address).
pub data MemBase : Type 0 where
  base_reg : ℕ → MemBase
  no_base : MemBase
  rip_relative : MemBase

pub record Operand : Type 0 where
  pub kind : OperandType
  pub size : ℕ
  pub reg_index : ℕ
  pub mem_base : MemBase
  pub mem_index : Option ℕ
  pub mem_scale : ℕ
  pub mem_disp : ℕ
  pub mem_seg : Option ℕ
  pub imm : ℕ

-- All bytes 0, as `memset` and the omitted fields of an initialiser leave it.
abbrev pub zero_operand : Operand
zero_operand = record {
  kind = OperandType.no_operand;
  size = 0;
  reg_index = 0;
  mem_base = base_reg 0;
  mem_index = some 0;
  mem_scale = 0;
  mem_disp = 0;
  mem_seg = some 0;
  imm = 0;
}

abbrev pub reg_operand : ℕ → ℕ → Operand
reg_operand index size = record zero_operand {
  kind = OperandType.reg;
  reg_index = index;
  size = size;
}

abbrev pub imm_operand : ℕ → ℕ → Operand
imm_operand value size = record zero_operand { kind = OperandType.imm; imm = value; size = size }

abbrev pub rel_operand : ℕ → Operand
rel_operand target = record zero_operand { kind = OperandType.rel; imm = target; size = 8 }

pub record Instruction : Type 0 where
  pub opcode : Opcode
  pub length : ℕ
  pub op0 : Operand
  pub op1 : Operand
  pub op2 : Operand
  pub num_operands : ℕ
  pub op_size : ℕ
  pub addr_size : ℕ
  pub has_lock : Bool
  pub has_rep : Bool
  pub has_repne : Bool
  pub segment_override : Option ℕ
  pub condition : ℕ

abbrev pub blank : Instruction
blank = record {
  opcode = Opcode.unknown;
  length = 0;
  op0 = zero_operand;
  op1 = zero_operand;
  op2 = zero_operand;
  num_operands = 0;
  op_size = 0;
  addr_size = 0;
  has_lock = false;
  has_rep = false;
  has_repne = false;
  segment_override = none;
  condition = 0;
}

abbrev pub IsSize : ℕ → Type 0
IsSize n = (n ≡ 1) ⊎ (n ≡ 2) ⊎ (n ≡ 4) ⊎ (n ≡ 8) ⊎ (n ≡ 16)

abbrev pub IsBase : MemBase → Type 0
IsBase (base_reg r) = r < 16
IsBase no_base = Unit
IsBase rip_relative = Unit

abbrev pub IsIndex : Option ℕ → Type 0
IsIndex none = Unit
IsIndex (some r) = r < 16

-- What the interpreter relies on: registers that exist, and immediates of 64 bits.
pub record IsOperand (op : Operand) : Type 0 where
  pub reg_fits : op.reg_index < 16
  pub base_fits : IsBase op.mem_base
  pub index_fits : IsIndex op.mem_index
  pub scale_fits : op.mem_scale ≤ 8
  pub disp_fits : op.mem_disp < 2 ^ 64
  pub imm_fits : op.imm < 2 ^ 64
  pub size_fits : op.size ≤ 16

pub record IsInstruction (i : Instruction) : Type 0 where
  pub op0_valid : IsOperand i.op0
  pub op1_valid : IsOperand i.op1
  pub op2_valid : IsOperand i.op2
  pub size_valid : (i.op_size ≡ 2) ⊎ (i.op_size ≡ 4) ⊎ (i.op_size ≡ 8)
  pub condition_fits : i.condition < 16
