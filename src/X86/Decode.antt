-- ===== src/X86/Decode.antt =====
-- Sources/CPU/wg_x86_decode.c: `wg_x86_decode`, one instruction from a buffer.
pub mod Types
pub mod Fetch
pub mod Opcodes
pub mod Switch
pub mod Safe
pub mod Moves
mod Tests
use wine_glass.Base.{
  ℕ, zero, suc, ◌+◌, ◌-◌, Bool, true, false, ◌&&◌, ◌==◌, leb, if◌then◌else◌, Option, none, some,
  List, get_elem?, bit_and,
}
use wine_glass.Base.Words.{◌>>>◌}
use Types.{Instruction, blank}
use Fetch.{Ctx, Decoder, ◌>>=◌, get_ctx, fetch8, effective_op_size}
use Switch.{decode_opcode}

-- A prefix byte changes the context; any other byte ends the prefixes. The cursor is moved by the
-- loop.
pub prefix : ℕ → Ctx → Option Ctx
prefix b c =
    if b == 0xF0
    then some (record c { has_lock = true })
    else if b == 0xF2
    then some (record c { has_f2 = true })
    else if b == 0xF3
    then some (record c { has_f3 = true })
    else if b == 0x66
    then some (record c { has_66 = true })
    else if b == 0x67
    then some (record c { has_67 = true })
    else if b == 0x26
    then some (record c { seg_override = some 0 })
    else if b == 0x2E
    then some (record c { seg_override = some 1 })
    else if b == 0x36
    then some (record c { seg_override = some 2 })
    else if b == 0x3E
    then some (record c { seg_override = some 3 })
    else if b == 0x64
    then some (record c { seg_override = some 4 })
    else if b == 0x65
    then some (record c { seg_override = some 5 })
    else if leb 0x40 b && leb b 0x4F
    then some (record c {
      rex_present = true;
      rex_w = bit_and (b >>> 3) 1;
      rex_r = bit_and (b >>> 2) 1;
      rex_x = bit_and (b >>> 1) 1;
      rex_b = bit_and b 1;
    })
    else none

-- The loop over the prefixes. Each round takes a byte, so `max_len` rounds are enough.
pub parse_prefixes : ℕ → Ctx → Option Ctx
parse_prefixes zero c = some c
parse_prefixes (suc n) c = elim (leb c.end c.pos) [
  | true ↦ some c
  | false ↦ elim (get_elem? c.code c.pos) [
    | none ↦ none
    | some b ↦ elim (prefix b c) [
      | none ↦ some c
      | some c' ↦ parse_prefixes n (record c' { pos = c'.pos + 1 })
    ]
  ]
]

abbrev pub start : List ℕ → ℕ → ℕ → Ctx
start code max_len rip = record {
  code = code;
  pos = 0;
  end = max_len;
  rip = rip;
  rex_present = false;
  rex_w = 0;
  rex_r = 0;
  rex_x = 0;
  rex_b = 0;
  has_66 = false;
  has_67 = false;
  has_f2 = false;
  has_f3 = false;
  has_lock = false;
  seg_override = none;
}

abbrev pub with_prefixes : Ctx → Instruction
with_prefixes c = record blank {
  has_lock = c.has_lock;
  has_rep = c.has_f3;
  has_repne = c.has_f2;
  segment_override = c.seg_override;
  addr_size = if c.has_67 then 4 else 8;
}

unfoldable pub decode_body : Decoder Instruction
decode_body = do
  c ← get_ctx
  let op_sz = effective_op_size c
  opcode ← fetch8
  decode_opcode opcode op_sz (record (with_prefixes c) { op_size = op_sz })

-- What the rest of the switch leaves: the length is the distance that the cursor has come.
abbrev pub finish : Option (Instruction × Ctx) → Option (ℕ × Instruction)
finish none = none
finish (some (i, c)) = some (c.pos, record i { length = c.pos })

abbrev pub after_prefixes : Option Ctx → Option (ℕ × Instruction)
after_prefixes none = none
after_prefixes (some c) =
    if leb c.end c.pos then some (0, with_prefixes c) else finish (decode_body c)

-- The length of the instruction, 0 on failure, with the instruction; `none` is a read outside the
-- array.
pub decode : List ℕ → ℕ → ℕ → Option (ℕ × Instruction)
decode code max_len rip =
    if max_len == 0
    then some (0, blank)
    else after_prefixes (parse_prefixes max_len (start code max_len rip))
