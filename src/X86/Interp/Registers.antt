-- ===== src/X86/Interp/Registers.antt =====
-- Register operands of Sources/CPU/wg_x86_interp.c: `write_operand` and `read_operand` at each
-- width, with the upper bits that a narrow write keeps and a 32-bit write clears.
use wine_glass.Base.{
  ℕ, ◌+◌, ◌*◌, ◌/◌, ◌%◌, ◌<◌, ◌^◌, ◌≡◌, ◌≢◌, refl, some, arith, bit_and, length, get_elem?,
  get_elem?-lt, get_elem?-set_self, get_elem?-set_ne, set, lt→ltb, All-get,
}
use wine_glass.Base.Bits.{bit_and_low}
use wine_glass.Base.Bits.Fields.{replace_low}
use wine_glass.X86.State.{IsU64}
use wine_glass.X86.State.Compare.{Width, w8, w16, w32, w64, bits}
use wine_glass.X86.Decode.Types.{Operand, OperandType}
use wine_glass.X86.Interp.Operands.{
  Machine, done, ◌>>=◌, get_gpr, put_gpr, mask_for, merge, read_operand, write_operand,
}
use wine_glass.X86.Interp.Safe.{IsMachine}

-- The width of an operand in bytes.
abbrev pub bytes : Width → ℕ
bytes w8 = 1
bytes w16 = 2
bytes w32 = 4
bytes w64 = 8

-- What a write of a width leaves of the register's former value.
abbrev pub kept_bits : Width → ℕ → ℕ
kept_bits w8 old = old / 2 ^ 8 * 2 ^ 8
kept_bits w16 old = old / 2 ^ 16 * 2 ^ 16
kept_bits w32 old = 0
kept_bits w64 old = 0

merge_width :
    (w : Width) (old val : ℕ)
    → old < 2 ^ 64
    → val < 2 ^ 64
    → merge (bytes w) old val ≡ kept_bits w old + val % 2 ^ bits w
unfolding merge mask_for
merge_width w8 old val h k = replace_low 8 56 old val h
merge_width w16 old val h k = replace_low 16 48 old val h
merge_width w32 old val h k = omega (arith, bit_and_low 32 val)
merge_width w64 old val h k = omega arith

masked_width :
    (w : Width) (old val : ℕ)
    → bit_and (kept_bits w old + val % 2 ^ bits w) (mask_for (bytes w)) ≡ val % 2 ^ bits w
unfolding mask_for
masked_width w8 old val = omega (arith, bit_and_low 8 (kept_bits w8 old + val % 2 ^ 8))
masked_width w16 old val = omega (arith, bit_and_low 16 (kept_bits w16 old + val % 2 ^ 16))
masked_width w32 old val = omega (arith, bit_and_low 32 (kept_bits w32 old + val % 2 ^ 32))
masked_width w64 old val = omega (arith, bit_and_low 64 (kept_bits w64 old + val % 2 ^ 64))

-- A write of 8, 16, 32 or 64 bits to a register operand succeeds where the register exists. Then
-- the operand reads as the value cut to the width; the register holds that value, with the upper
-- bits of its former value at 8 and 16 bits and zeros above at 32; and no other register and no
-- memory changes.
pub write_operand-register :
    (w : Width) (op : Operand) (s : Machine) (old val : ℕ)
    → IsMachine s
    → op.kind ≡ OperandType.reg
    → op.size ≡ bytes w
    → get_elem? s.cpu.gpr op.reg_index ≡ some old
    → val < 2 ^ 64
    → (t : Machine) × (write_operand op val s ≡ done tt t)
      × (read_operand op t ≡ done (val % 2 ^ bits w) t)
      × (get_elem? t.cpu.gpr op.reg_index ≡ some (kept_bits w old + val % 2 ^ bits w))
      × ((r : ℕ) → op.reg_index ≢ r → get_elem? t.cpu.gpr r ≡ get_elem? s.cpu.gpr r)
      × (t.mem ≡ s.mem)
unfolding write_operand read_operand ◌>>=◌ get_gpr put_gpr
write_operand-register w op s old val v kind size at h =
    let r = op.reg_index in
    let here = get_elem?-lt s.cpu.gpr r at in
    let whole = merge_width w old val (All-get IsU64 s.cpu.gpr r v.cpu_valid.gpr_fits at) h in
    let new = kept_bits w old + val % 2 ^ bits w in
    let t = record s { cpu = record s.cpu { gpr = set s.cpu.gpr r new } } in
    let back = get_elem?-set_self s.cpu.gpr r new here in
    (
      t,
      rw (kind, at, size, whole, lt→ltb r (length s.cpu.gpr) here),
      rw (kind, back, size, masked_width w old val),
      back,
      λ q apart. get_elem?-set_ne s.cpu.gpr r q new apart,
      refl,
    )
