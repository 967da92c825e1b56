-- ===== src/X86/Decode/Safe/Operands.antt =====
-- `decode_modrm` of Sources/CPU/wg_x86_decode.c stays in the buffer, and its operands are valid.
use native.Mathlib.Nat.{pow-le-pow_right}
use wine_glass.Base.{
  ℕ, ◌+◌, ◌^◌, ◌≤◌, ◌<◌, ◌&&◌, ◌==◌, Option, none, arith, Bool-cases, inl, inr, bit_and,
}
use wine_glass.Base.Words.{u64, ◌<<<◌, ◌>>>◌}
use wine_glass.Base.Bits.{bit_or-lt, bit_and_low}
use wine_glass.X86.Decode.Types.{
  Operand, OperandType, IsOperand, IsBase, IsIndex, MemBase, zero_operand, reg_operand, imm_operand,
  rel_operand, no_base, rip_relative,
}
use wine_glass.X86.Decode.Fetch.{
  peek, fetch8, fetch_simm8, fetch_simm32, get_ctx, here, sib_index_of, sib_scale_of, modrm_mod,
  modrm_reg, modrm_rm, with_rex, decode_sib, decode_base, decode_disp, decode_modrm_mem,
  decode_modrm, ModRm,
}
use wine_glass.X86.Decode.Safe.{Runs, Runs-pure, Runs-if, Runs-bind}
use wine_glass.X86.Decode.Safe.Fetches.{
  fetch8-Runs, fetch_simm8-Runs, fetch_simm32-Runs, get_ctx-Runs, peek-Runs,
}

-- Register numbers: three bits of a byte and a REX bit.
low3 : (b : ℕ) → bit_and b 7 < 8
low3 b = omega (arith, bit_and_low 3 b)

low2 : (b : ℕ) → bit_and b 3 < 4
low2 b = omega (arith, bit_and_low 2 b)

pub with_rex-lt : (field rex : ℕ) → field < 8 → rex ≤ 1 → with_rex field rex < 16
unfolding with_rex
with_rex-lt field rex h k = bit_or-lt 4 field (rex <<< 3) (omega arith) (omega arith)

pub IsOperand-reg : (index size : ℕ) → index < 16 → size ≤ 16 → IsOperand (reg_operand index size)
IsOperand-reg index size h k = record {
  reg_fits = h;
  base_fits = omega arith;
  index_fits = omega arith;
  scale_fits = omega arith;
  disp_fits = omega arith;
  imm_fits = omega arith;
  size_fits = k;
}

pub IsOperand-imm : (v size : ℕ) → v < 2 ^ 64 → size ≤ 16 → IsOperand (imm_operand v size)
IsOperand-imm v size h k = record {
  reg_fits = omega arith;
  base_fits = omega arith;
  index_fits = omega arith;
  scale_fits = omega arith;
  disp_fits = omega arith;
  imm_fits = h;
  size_fits = k;
}

pub IsOperand-rel : (v : ℕ) → v < 2 ^ 64 → IsOperand (rel_operand v)
IsOperand-rel v h = record {
  reg_fits = omega arith;
  base_fits = omega arith;
  index_fits = omega arith;
  scale_fits = omega arith;
  disp_fits = omega arith;
  imm_fits = h;
  size_fits = omega arith;
}

-- Any size may be put on an operand.
pub IsOperand-size :
    (op : Operand) (n : ℕ) → n ≤ 16 → IsOperand op → IsOperand (record op { size = n })
IsOperand-size op n h k = record {
  reg_fits = k.reg_fits;
  base_fits = k.base_fits;
  index_fits = k.index_fits;
  scale_fits = k.scale_fits;
  disp_fits = k.disp_fits;
  imm_fits = k.imm_fits;
  size_fits = h;
}

with_disp :
    (op : Operand) (v : ℕ) → v < 2 ^ 64 → IsOperand op → IsOperand (record op { mem_disp = v })
with_disp op v h k = record {
  reg_fits = k.reg_fits;
  base_fits = k.base_fits;
  index_fits = k.index_fits;
  scale_fits = k.scale_fits;
  disp_fits = h;
  imm_fits = k.imm_fits;
  size_fits = k.size_fits;
}

with_base :
    (op : Operand) (b : MemBase) → IsBase b → IsOperand op → IsOperand (record op { mem_base = b })
with_base op b h k = record {
  reg_fits = k.reg_fits;
  base_fits = h;
  index_fits = k.index_fits;
  scale_fits = k.scale_fits;
  disp_fits = k.disp_fits;
  imm_fits = k.imm_fits;
  size_fits = k.size_fits;
}

with_index :
    (op : Operand) (i : Option ℕ) (n : ℕ)
    → IsIndex i
    → n ≤ 8
    → IsOperand op
    → IsOperand (record op { mem_index = i; mem_scale = n })
with_index op i n h m k = record {
  reg_fits = k.reg_fits;
  base_fits = k.base_fits;
  index_fits = h;
  scale_fits = m;
  disp_fits = k.disp_fits;
  imm_fits = k.imm_fits;
  size_fits = k.size_fits;
}

sib_without_rsp : (i : ℕ) → i < 16 → IsIndex (sib_index_of i)
sib_without_rsp i h = elim (Bool-cases (i == 4)) [ inl e ↦ rw e tt | inr e ↦ rw e h ]

scale_of-le : (i sib : ℕ) → sib_scale_of i sib ≤ 8
scale_of-le i sib = elim (Bool-cases (i == 4)) [
  | inl e ↦ rw e (omega arith)
  | inr e ↦ rw e (power (bit_and (sib >>> 6) 3) (low2 (sib >>> 6)))
]
  where
    power : (k : ℕ) → k < 4 → 1 <<< k ≤ 8
    power k h = omega (arith, pow-le-pow_right {n = 2} (omega arith) {i = k} {j = 3} (omega arith))

decode_sib-Runs : (mode : ℕ) (op : Operand) → IsOperand op → Runs IsOperand (decode_sib mode op)
unfolding decode_sib
decode_sib-Runs mode op v = Runs-bind fetch8 _ fetch8-Runs λ sib _.
    Runs-bind get_ctx _ get_ctx-Runs λ c h.
      let index = with_rex (modrm_reg sib) c.rex_x in
      let fits : index < 16 = with_rex-lt _ _ (low3 (sib >>> 3)) h.x_bit in
      let w =
        with_index op (sib_index_of index) (sib_scale_of index sib) (sib_without_rsp index fits)
          (scale_of-le index sib) v in
      Runs-if (mode == 0 && (modrm_rm sib == 5)) _ _
        (Runs-bind fetch_simm32 _ fetch_simm32-Runs λ disp hd. Runs-pure _ (with_disp _ disp hd w))
        (Runs-pure _ (with_base _ _ (with_rex-lt _ _ (low3 sib) h.b_bit) w))

decode_base-Runs :
    (mode modrm : ℕ) (op : Operand) → IsOperand op → Runs IsOperand (decode_base mode modrm op)
unfolding decode_base
decode_base-Runs mode modrm op v = Runs-if (modrm_rm modrm == 4) _ _ (decode_sib-Runs mode op v) (
    Runs-if (mode == 0 && (modrm_rm modrm == 5)) _ _
      (Runs-bind fetch_simm32 _ fetch_simm32-Runs λ disp _. Runs-bind get_ctx _ get_ctx-Runs λ c _.
        Runs-pure _
          (with_disp _ (u64 (here c + disp)) (omega arith) (with_base op rip_relative tt v)))
      (Runs-bind get_ctx _ get_ctx-Runs
        λ c h. Runs-pure _ (with_base op _ (with_rex-lt _ _ (low3 modrm) h.b_bit) v)))

decode_disp-Runs : (mode : ℕ) (op : Operand) → IsOperand op → Runs IsOperand (decode_disp mode op)
unfolding decode_disp
decode_disp-Runs mode op v =
    Runs-if (mode == 1) _ _
      (Runs-bind fetch_simm8 _ fetch_simm8-Runs λ disp h. Runs-pure _ (with_disp op disp h v))
      (Runs-if (mode == 2) _ _
        (Runs-bind fetch_simm32 _ fetch_simm32-Runs λ disp h. Runs-pure _ (with_disp op disp h v))
        (Runs-pure op v))

-- An operand of memory before its address is known.
IsOperand-mem :
    (size : ℕ) (seg : Option ℕ)
    → size ≤ 16
    → IsOperand (record zero_operand {
      size = size;
      kind = OperandType.mem;
      mem_base = no_base;
      mem_index = none;
      mem_scale = 1;
      mem_seg = seg;
    })
IsOperand-mem size seg h = record {
  reg_fits = omega arith;
  base_fits = tt;
  index_fits = tt;
  scale_fits = omega arith;
  disp_fits = omega arith;
  imm_fits = omega arith;
  size_fits = h;
}

decode_modrm_mem-Runs :
    (size : ℕ) → size ≤ 16 → Runs IsOperand (decode_modrm_mem (record zero_operand { size = size }))
unfolding decode_modrm_mem
decode_modrm_mem-Runs size h = Runs-bind fetch8 _ fetch8-Runs λ modrm _.
    Runs-bind get_ctx _ get_ctx-Runs λ c v.
      Runs-if (modrm_mod modrm == 3) _ _
        (Runs-pure _ (IsOperand-reg _ size (with_rex-lt _ _ (low3 modrm) v.b_bit) h))
        (Runs-bind (decode_base (modrm_mod modrm) modrm _) _
          (decode_base-Runs (modrm_mod modrm) modrm _ (IsOperand-mem size c.seg_override h))
          λ op w. decode_disp-Runs (modrm_mod modrm) op w)

abbrev pub IsModRm : ModRm → Type 0
IsModRm m = IsOperand m.rm × IsOperand m.reg

pub decode_modrm-Runs : (size : ℕ) → size ≤ 16 → Runs IsModRm (decode_modrm size)
unfolding decode_modrm
decode_modrm-Runs size h = Runs-bind peek _ peek-Runs λ modrm _.
    Runs-bind get_ctx _ get_ctx-Runs λ c v.
      Runs-bind (decode_modrm_mem _) _ (decode_modrm_mem-Runs size h) λ rm w.
        Runs-pure _ (w, IsOperand-reg _ size (with_rex-lt _ _ (low3 (modrm >>> 3)) v.r_bit) h)
