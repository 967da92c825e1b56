-- ===== src/X86/Decode/Fetch.antt =====
-- The cursor of Sources/CPU/wg_x86_decode.c: `DecodeCtx`, the fetches, and the ModR/M byte. A
-- pointer into the code is an offset. A read outside the array is a fault; the fetches test
-- against `end` first, the peek of `decode_modrm` does not.
use wine_glass.Base.{
  ℕ, zero, suc, ◌+◌, Bool, ◌&&◌, ◌==◌, leb, if◌then◌else◌, Option, none, some, List, get_elem?,
  bit_and, bit_or,
}
use wine_glass.Base.Words.{u64, sext, ◌<<<◌, ◌>>>◌}
use wine_glass.X86.Decode.Types.{
  Operand, OperandType, base_reg, no_base, rip_relative, zero_operand, reg_operand,
}

pub record Ctx : Type 0 where
  pub code : List ℕ
  pub pos : ℕ
  pub end : ℕ
  pub rip : ℕ
  pub rex_present : Bool
  pub rex_w : ℕ
  pub rex_r : ℕ
  pub rex_x : ℕ
  pub rex_b : ℕ
  pub has_66 : Bool
  pub has_67 : Bool
  pub has_f2 : Bool
  pub has_f3 : Bool
  pub has_lock : Bool
  pub seg_override : Option ℕ

abbrev pub Decoder : Type 0 → Type 0
Decoder A = Ctx → Option (A × Ctx)

abbrev pub pure : {A : Type 0} → A → Decoder A
pure a c = some (a, c)

abbrev pub after_step : {A B : Type 0} → Option (A × Ctx) → (A → Decoder B) → Option (B × Ctx)
after_step none f = none
after_step (some (a, c)) f = f a c

infixl 5 ◌>>=◌
unfoldable pub ◌>>=◌ : {A B : Type 0} → Decoder A → (A → Decoder B) → Decoder B
◌>>=◌ m f c = after_step (m c) f

abbrev pub with_byte : Ctx → Option ℕ → Option (ℕ × Ctx)
with_byte c none = none
with_byte c (some b) = some (b, c)

-- `*c->ptr`
unfoldable pub peek : Decoder ℕ
peek c = with_byte c (get_elem? c.code c.pos)

abbrev pub advance : ℕ → Ctx → Ctx
advance n c = record c { pos = c.pos + n }

unfoldable pub fetch8 : Decoder ℕ
fetch8 c = if leb c.end c.pos then some (0, c) else with_byte (advance 1 c) (get_elem? c.code c.pos)

-- The bytes from `pos` on, low byte first.
abbrev pub word_at : ℕ → List ℕ → ℕ → Option ℕ
word_at zero code pos = some 0
word_at (suc n) code pos = elim (get_elem? code pos) [
  | none ↦ none
  | some b ↦ elim (word_at n code (suc pos)) [ none ↦ none | some v ↦ some (bit_or (v <<< 8) b) ]
]

-- Four bytes, or 0 and no progress where fewer are left; so the 16-bit fetch with two.
abbrev pub fetch_word : ℕ → Decoder ℕ
fetch_word n c =
    if leb (c.pos + n) c.end then with_byte (advance n c) (word_at n c.code c.pos) else some (0, c)

unfoldable pub fetch16 : Decoder ℕ
fetch16 = fetch_word 2

unfoldable pub fetch32 : Decoder ℕ
fetch32 = fetch_word 4

unfoldable pub fetch64 : Decoder ℕ
fetch64 = do lo ← fetch32; hi ← fetch32; pure (bit_or lo (hi <<< 32))

-- `fetch_simm32`, as the 64-bit pattern that every caller widens it to.
unfoldable pub fetch_simm32 : Decoder ℕ
fetch_simm32 = do v ← fetch32; pure (sext 32 v)

-- `(int8_t)fetch8(c)`, widened.
unfoldable pub fetch_simm8 : Decoder ℕ
fetch_simm8 = do v ← fetch8; pure (sext 8 v)

unfoldable pub get_ctx : Decoder Ctx
get_ctx c = some (c, c)

-- `rip + (c->ptr - c->start)`, the address of the next byte of code.
abbrev pub here : Ctx → ℕ
here c = u64 (c.rip + c.pos)

unfoldable pub effective_op_size : Ctx → ℕ
effective_op_size c = if c.rex_w == 0 then (if c.has_66 then 2 else 4) else 8

abbrev pub modrm_mod : ℕ → ℕ
modrm_mod b = bit_and (b >>> 6) 3

abbrev pub modrm_reg : ℕ → ℕ
modrm_reg b = bit_and (b >>> 3) 7

abbrev pub modrm_rm : ℕ → ℕ
modrm_rm b = bit_and b 7

-- A register number of three bits with its REX bit.
unfoldable pub with_rex : ℕ → ℕ → ℕ
with_rex field rex = bit_or field (rex <<< 3)

abbrev pub sib_index_of : ℕ → Option ℕ
sib_index_of index = if index == 4 then none else some index

abbrev pub sib_scale_of : ℕ → ℕ → ℕ
sib_scale_of index sib = if index == 4 then 1 else 1 <<< bit_and (sib >>> 6) 3

-- The SIB byte, and the displacement that takes the place of base 5 under mod 0.
unfoldable pub decode_sib : ℕ → Operand → Decoder Operand
decode_sib mode op = do
  sib ← fetch8
  c ← get_ctx
  let index = with_rex (modrm_reg sib) c.rex_x
  let op1 = record op { mem_index = sib_index_of index; mem_scale = sib_scale_of index sib }
  if mode == 0 && (modrm_rm sib == 5)
      then (do disp ← fetch_simm32; pure (record op1 { mem_disp = disp }))
      else pure (record op1 { mem_base = base_reg (with_rex (modrm_rm sib) c.rex_b) })

unfoldable pub decode_base : ℕ → ℕ → Operand → Decoder Operand
decode_base mode modrm op =
    if modrm_rm modrm == 4
    then decode_sib mode op
    else if mode == 0 && (modrm_rm modrm == 5)
    then (do
      disp ← fetch_simm32
      c ← get_ctx
      pure (record op { mem_base = rip_relative; mem_disp = u64 (here c + disp) }))
    else (do
      c ← get_ctx
      pure (record op { mem_base = base_reg (with_rex (modrm_rm modrm) c.rex_b) }))

-- The displacement that follows under mod 1 and 2.
unfoldable pub decode_disp : ℕ → Operand → Decoder Operand
decode_disp mode op =
    if mode == 1
    then (do disp ← fetch_simm8; pure (record op { mem_disp = disp }))
    else if mode == 2
    then (do disp ← fetch_simm32; pure (record op { mem_disp = disp }))
    else pure op

unfoldable pub decode_modrm_mem : Operand → Decoder Operand
decode_modrm_mem op = do
  modrm ← fetch8
  c ← get_ctx
  let mode = modrm_mod modrm
  let start = record op {
    kind = OperandType.mem;
    mem_base = no_base;
    mem_index = none;
    mem_scale = 1;
    mem_disp = 0;
    mem_seg = c.seg_override;
  }
  if mode == 3
      then pure
          (record op { kind = OperandType.reg; reg_index = with_rex (modrm_rm modrm) c.rex_b })
      else (do addressed ← decode_base mode modrm start; decode_disp mode addressed)

-- The r/m operand and the register operand.
pub record ModRm : Type 0 where
  pub rm : Operand
  pub reg : Operand

unfoldable pub decode_modrm : ℕ → Decoder ModRm
decode_modrm op_size = do
  modrm ← peek
  c ← get_ctx
  rm ← decode_modrm_mem (record zero_operand { size = op_size })
  pure (record { rm = rm; reg = reg_operand (with_rex (modrm_reg modrm) c.rex_r) op_size })
