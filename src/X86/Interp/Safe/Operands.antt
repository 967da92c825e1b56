-- ===== src/X86/Interp/Safe/Operands.antt =====
-- The operands and the stack keep a valid machine, and what they read fits its size.
use wine_glass.Base.{ℕ, ◌-◌, ◌*◌, ◌≤◌, ◌<◌, ◌^◌, ◌≡◌, ◌==◌, Option, none, some, arith, bit_and}
use wine_glass.Base.Words.{not64}
use wine_glass.Base.Bits.{bit_and-lt, bit_or-lt}
use wine_glass.Memory.{read_word}
use wine_glass.X86.State.{IsU64, reg_rsp}
use wine_glass.X86.Decode.Types.{
  Operand, OperandType, MemBase, IsOperand, IsBase, IsIndex, base_reg, no_base, rip_relative,
}
use wine_glass.X86.Interp.Operands.{
  Fault, get_gpr, mask_for, sign_extend, extend, base_value, index_value, is_rip_relative, address,
  read_mem, read_sized, read_kind, read_operand, write_sized, merge, write_kind, write_operand,
  ea_kind, compute_ea, push64, pop64,
}
use wine_glass.X86.Interp.Safe.{
  Any, Keeps, Keeps-pure, Keeps-if, Keeps-or_fault, Keeps-bind, Keeps-then, Keeps-weaken,
  get_gpr-Keeps, put_gpr-Keeps, read_mem-Keeps, write_mem-Keeps,
}

sign_extend-lt :
    (val bytes : ℕ) {r : ℕ} → val < 2 ^ 64 → sign_extend val bytes ≡ some r → r < 2 ^ 64
unfolding sign_extend
sign_extend-lt val bytes {r} h e = ground (arith, bit_or-lt 64 val (not64 (2 ^ (bytes * 8) - 1)) h)

pub extend-Keeps : (val bytes : ℕ) → val < 2 ^ 64 → Keeps IsU64 (extend val bytes)
extend-Keeps val bytes h =
    Keeps-or_fault Fault.bad_shift (sign_extend val bytes) tt λ r e. sign_extend-lt val bytes h e

masked : (v bytes : ℕ) → v < 2 ^ 64 → bit_and v (mask_for bytes) < 2 ^ 64
masked v bytes h = bit_and-lt 64 v (mask_for bytes) h

merge-lt : (size old val : ℕ) → old < 2 ^ 64 → val < 2 ^ 64 → merge size old val < 2 ^ 64
unfolding merge
merge-lt size old val h k = ground (
  arith,
  bit_and-lt 64 val 0xFFFFFFFF k,
  bit_or-lt 64 _ _ (bit_and-lt 64 old (not64 (mask_for size)) h) (masked val size k),
)

base_value-Keeps : (b : MemBase) → IsBase b → Keeps IsU64 (base_value b)
base_value-Keeps (base_reg r) h = get_gpr-Keeps r h
base_value-Keeps no_base h = Keeps-pure 0 (omega arith)
base_value-Keeps rip_relative h = Keeps-pure 0 (omega arith)

index_value-Keeps : (i : Option ℕ) → IsIndex i → Keeps IsU64 (index_value i)
index_value-Keeps none h = Keeps-pure 0 (omega arith)
index_value-Keeps (some r) h = get_gpr-Keeps r h

read_sized-Keeps : (size addr : ℕ) → Keeps IsU64 (read_sized size addr)
read_sized-Keeps size addr = Keeps-if (size == 1) _ _ (widen 1 (omega arith)) (
    Keeps-if (size == 2) _ _ (widen 2 (omega arith)) (
      Keeps-if (size == 4) _ _ (widen 4 (omega arith))
        (Keeps-if (size == 8) _ _ (widen 8 (omega arith)) (Keeps-pure 0 (omega arith)))))
  where
    widen : (n : ℕ) → 256 ^ n ≤ 2 ^ 64 → Keeps IsU64 (read_mem (read_word n) addr)
    widen n h = Keeps-weaken _ (read_mem-Keeps n addr) λ v k. omega arith

module _ (op : Operand) (v : IsOperand op) where
  address-Keeps : Keeps IsU64 (address op)
  unfolding address
  address-Keeps = Keeps-if (is_rip_relative op.mem_base) _ _ (Keeps-pure op.mem_disp v.disp_fits) (
      Keeps-bind (base_value op.mem_base) _ (base_value-Keeps op.mem_base v.base_fits) λ base h.
        Keeps-bind (index_value op.mem_index) _ (index_value-Keeps op.mem_index v.index_fits)
          λ index k. Keeps-pure _ (omega arith))

  read_kind-Keeps : (kind : OperandType) → Keeps IsU64 (read_kind kind op)
  read_kind-Keeps OperandType.reg =
      Keeps-bind (get_gpr op.reg_index) _ (get_gpr-Keeps op.reg_index v.reg_fits)
        λ x h. Keeps-pure _ (masked x op.size h)
  read_kind-Keeps OperandType.imm = Keeps-pure _ (masked op.imm op.size v.imm_fits)
  read_kind-Keeps OperandType.rel = Keeps-pure _ (masked op.imm op.size v.imm_fits)
  read_kind-Keeps OperandType.mem =
      Keeps-bind (address op) _ address-Keeps λ addr h. read_sized-Keeps op.size addr
  read_kind-Keeps OperandType.no_operand = Keeps-pure 0 (omega arith)

  pub read_operand-Keeps : Keeps IsU64 (read_operand op)
  unfolding read_operand
  read_operand-Keeps = read_kind-Keeps op.kind

  write_sized-Keeps : (size addr val : ℕ) → Keeps Any (write_sized size addr val)
  write_sized-Keeps size addr val = Keeps-if (size == 1) _ _ (write_mem-Keeps 1 addr _) (
      Keeps-if (size == 2) _ _ (write_mem-Keeps 2 addr _) (
        Keeps-if (size == 4) _ _ (write_mem-Keeps 4 addr _)
          (Keeps-if (size == 8) _ _ (write_mem-Keeps 8 addr _) (Keeps-pure tt tt))))

  write_kind-Keeps :
      (kind : OperandType) (val : ℕ) → val < 2 ^ 64 → Keeps Any (write_kind kind op val)
  write_kind-Keeps OperandType.reg val h =
      Keeps-bind (get_gpr op.reg_index) _ (get_gpr-Keeps op.reg_index v.reg_fits)
        λ old k. put_gpr-Keeps op.reg_index _ v.reg_fits (merge-lt op.size old val k h)
  write_kind-Keeps OperandType.mem val h =
      Keeps-bind (address op) _ address-Keeps λ addr k. write_sized-Keeps op.size addr val
  write_kind-Keeps OperandType.imm val h = Keeps-pure tt tt
  write_kind-Keeps OperandType.rel val h = Keeps-pure tt tt
  write_kind-Keeps OperandType.no_operand val h = Keeps-pure tt tt

  pub write_operand-Keeps : (val : ℕ) → val < 2 ^ 64 → Keeps Any (write_operand op val)
  unfolding write_operand
  write_operand-Keeps val h = write_kind-Keeps op.kind val h

  pub compute_ea-Keeps : Keeps IsU64 (compute_ea op)
  unfolding compute_ea
  compute_ea-Keeps = by_kind op.kind
    where
      by_kind : (kind : OperandType) → Keeps IsU64 (ea_kind kind op)
      by_kind OperandType.mem = address-Keeps
      by_kind OperandType.reg = Keeps-pure 0 (omega arith)
      by_kind OperandType.imm = Keeps-pure 0 (omega arith)
      by_kind OperandType.rel = Keeps-pure 0 (omega arith)
      by_kind OperandType.no_operand = Keeps-pure 0 (omega arith)

pub push64-Keeps : (val : ℕ) → Keeps Any (push64 val)
unfolding push64
push64-Keeps val = Keeps-bind (get_gpr reg_rsp) _ (get_gpr-Keeps reg_rsp (omega arith)) λ rsp h.
    Keeps-then _ _ (put_gpr-Keeps reg_rsp _ (omega arith) (omega arith)) (
      Keeps-bind (get_gpr reg_rsp) _ (get_gpr-Keeps reg_rsp (omega arith))
        λ top k. write_mem-Keeps 8 top val)

pub pop64-Keeps : Keeps IsU64 pop64
unfolding pop64
pop64-Keeps = Keeps-bind (get_gpr reg_rsp) _ (get_gpr-Keeps reg_rsp (omega arith)) λ rsp h.
    Keeps-bind _ _ (read_mem-Keeps 8 rsp) λ val k.
      Keeps-bind (get_gpr reg_rsp) _ (get_gpr-Keeps reg_rsp (omega arith)) λ top l.
        Keeps-then _ _ (put_gpr-Keeps reg_rsp _ (omega arith) (omega arith))
          (Keeps-pure val (omega arith))
