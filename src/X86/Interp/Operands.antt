-- ===== src/X86/Interp/Operands.antt =====
-- Sources/CPU/wg_x86_interp.c: what the handlers of `wg_x86_exec_one` share, the operands and the
-- stack. The two structs that the code passes by pointer are the state of a run. Where C leaves
-- the behaviour undefined the run is a fault that says why.
use wine_glass.Base.{
  ℕ, ◌+◌, ◌-◌, ◌*◌, ◌^◌, Bool, true, false, ◌||◌, ◌==◌, ltb, leb, if◌then◌else◌, Option, none, some,
  get_elem?, set, length, bit_and, bit_or,
}
use wine_glass.Base.Words.{u8, u16, u32, u64, not64, sub64, test_mask}
use wine_glass.Memory.{
  Memory, memory_read_u8, memory_read_u16, memory_read_u32, memory_read_u64, memory_write_u8,
  memory_write_u16, memory_write_u32, memory_write_u64,
}
use wine_glass.X86.State.{Cpu, reg_rsp}
use wine_glass.X86.Decode.Types.{Operand, OperandType, MemBase, base_reg, no_base, rip_relative}

pub record Machine : Type 0 where
  pub cpu : Cpu
  pub mem : Memory

-- An index past a register file, a memory access past a region's buffer, a shift by the width or
-- more, a signed product that does not fit, and a read past the instruction buffer.
pub data Fault : Type 0 where
  bad_register bad_access bad_shift signed_overflow over_read : Fault

pub data Result (A : Type 0) : Type 0 where
  done : A → Machine → Result A
  fault : Fault → Result A

abbrev pub Run : Type 0 → Type 0
Run A = Machine → Result A

abbrev pub pure : {A : Type 0} → A → Run A
pure a s = done a s

abbrev pub raise : {A : Type 0} → Fault → Run A
raise e s = fault e

abbrev pub after_run : {A B : Type 0} → Result A → (A → Run B) → Result B
after_run (done a s) f = f a s
after_run (fault e) f = fault e

infixl 5 ◌>>=◌
unfoldable pub ◌>>=◌ : {A B : Type 0} → Run A → (A → Run B) → Run B
◌>>=◌ m f s = after_run (m s) f

infixl 5 ◌>>◌
abbrev pub ◌>>◌ : {A B : Type 0} → Run A → Run B → Run B
m >> n = m >>= λ _. n

-- A partial value, with the fault that stands for its absence.
abbrev pub or_fault : {A : Type 0} → Fault → Option A → Run A
or_fault e none s = fault e
or_fault e (some a) s = done a s

unfoldable pub get_cpu : Run Cpu
get_cpu s = done s.cpu s

unfoldable pub put_cpu : Cpu → Run Unit
put_cpu cpu s = done tt (record s { cpu = cpu })

-- `cpu->gpr[r]`
unfoldable pub get_gpr : ℕ → Run ℕ
get_gpr r s = or_fault Fault.bad_register (get_elem? s.cpu.gpr r) s

-- `cpu->gpr[r] = v`
unfoldable pub put_gpr : ℕ → ℕ → Run Unit
put_gpr r v s =
    if ltb r (length s.cpu.gpr)
    then done tt (record s { cpu = record s.cpu { gpr = set s.cpu.gpr r v } })
    else fault Fault.bad_register

-- A read through one of the readers of the memory.
unfoldable pub read_mem : (Memory → ℕ → Option ℕ) → ℕ → Run ℕ
read_mem read addr s = or_fault Fault.bad_access (read s.mem addr) s

abbrev pub with_mem : Machine → Option Memory → Result Unit
with_mem s none = fault Fault.bad_access
with_mem s (some mem) = done tt (record s { mem = mem })

unfoldable pub write_mem : (Memory → ℕ → ℕ → Option Memory) → ℕ → ℕ → Run Unit
write_mem write addr v s = with_mem s (write s.mem addr v)

unfoldable pub mask_for : ℕ → ℕ
mask_for bytes = if leb 8 bytes then 2 ^ 64 - 1 else 2 ^ (bytes * 8) - 1

-- The `int64_t` result is its pattern. The shifts are undefined at 0 bytes and above 8, and for a
-- negative value at 8 bytes, where `1ULL << bits` shifts by 64.
unfoldable pub sign_extend : ℕ → ℕ → Option ℕ
sign_extend val bytes =
    if (bytes == 0) || leb 9 bytes
    then none
    else if test_mask val (2 ^ (bytes * 8 - 1))
    then (if bytes == 8 then none else some (bit_or val (not64 (2 ^ (bytes * 8) - 1))))
    else some val

abbrev pub extend : ℕ → ℕ → Run ℕ
extend val bytes = or_fault Fault.bad_shift (sign_extend val bytes)

abbrev pub base_value : MemBase → Run ℕ
base_value (base_reg r) = get_gpr r
base_value no_base = pure 0
base_value rip_relative = pure 0

abbrev pub index_value : Option ℕ → Run ℕ
index_value none = pure 0
index_value (some r) = get_gpr r

abbrev pub is_rip_relative : MemBase → Bool
is_rip_relative (base_reg r) = false
is_rip_relative no_base = false
is_rip_relative rip_relative = true

-- The address that `read_operand`, `write_operand` and `compute_ea` compute for a memory operand.
unfoldable pub address : Operand → Run ℕ
address op = if is_rip_relative op.mem_base then pure op.mem_disp else (do
  base ← base_value op.mem_base
  index ← index_value op.mem_index
  pure (u64 (u64 (base + u64 (index * op.mem_scale)) + op.mem_disp)))

abbrev pub read_sized : ℕ → ℕ → Run ℕ
read_sized size addr =
    if size == 1
    then read_mem memory_read_u8 addr
    else if size == 2
    then read_mem memory_read_u16 addr
    else if size == 4
    then read_mem memory_read_u32 addr
    else if size == 8
    then read_mem memory_read_u64 addr
    else pure 0

abbrev pub read_kind : OperandType → Operand → Run ℕ
read_kind OperandType.reg op = do v ← get_gpr op.reg_index; pure (bit_and v (mask_for op.size))
read_kind OperandType.imm op = pure (bit_and op.imm (mask_for op.size))
read_kind OperandType.rel op = pure (bit_and op.imm (mask_for op.size))
read_kind OperandType.mem op = do addr ← address op; read_sized op.size addr
read_kind OperandType.no_operand op = pure 0

unfoldable pub read_operand : Operand → Run ℕ
read_operand op = read_kind op.kind op

abbrev pub write_sized : ℕ → ℕ → ℕ → Run Unit
write_sized size addr val =
    if size == 1
    then write_mem memory_write_u8 addr (u8 val)
    else if size == 2
    then write_mem memory_write_u16 addr (u16 val)
    else if size == 4
    then write_mem memory_write_u32 addr (u32 val)
    else if size == 8
    then write_mem memory_write_u64 addr val
    else pure tt

-- What a register holds after a write of `size` bytes to it.
unfoldable pub merge : ℕ → ℕ → ℕ → ℕ
merge size old val =
    if size == 4
    then bit_and val 0xFFFFFFFF
    else if ltb size 4
    then bit_or (bit_and old (not64 (mask_for size))) (bit_and val (mask_for size))
    else val

abbrev pub write_kind : OperandType → Operand → ℕ → Run Unit
write_kind OperandType.reg op val = do
  old ← get_gpr op.reg_index
  put_gpr op.reg_index (merge op.size old val)
write_kind OperandType.mem op val = do addr ← address op; write_sized op.size addr val
write_kind OperandType.imm op val = pure tt
write_kind OperandType.rel op val = pure tt
write_kind OperandType.no_operand op val = pure tt

unfoldable pub write_operand : Operand → ℕ → Run Unit
write_operand op val = write_kind op.kind op val

abbrev pub ea_kind : OperandType → Operand → Run ℕ
ea_kind OperandType.mem op = address op
ea_kind OperandType.reg op = pure 0
ea_kind OperandType.imm op = pure 0
ea_kind OperandType.rel op = pure 0
ea_kind OperandType.no_operand op = pure 0

unfoldable pub compute_ea : Operand → Run ℕ
compute_ea op = ea_kind op.kind op

unfoldable pub push64 : ℕ → Run Unit
push64 val = do
  rsp ← get_gpr reg_rsp
  put_gpr reg_rsp (sub64 rsp 8)
  top ← get_gpr reg_rsp
  write_mem memory_write_u64 top val

unfoldable pub pop64 : Run ℕ
pop64 = do
  rsp ← get_gpr reg_rsp
  val ← read_mem memory_read_u64 rsp
  top ← get_gpr reg_rsp
  put_gpr reg_rsp (u64 (top + 8))
  pure val
