-- ===== src/X86/Decode/Safe/Whole.antt =====
-- `wg_x86_decode` as a whole: the prefixes, the opcode and its operands.
use mathlib.Core.Path.{subst}
use wine_glass.Base.{
  ℕ, zero, suc, ◌+◌, ◌≤◌, ◌<◌, ◌≡◌, ◌⊎◌, inl, inr, refl, sym, Bool, true, false, ◌&&◌, ◌==◌, leb,
  if◌then◌else◌, Option, none, some, Option-cases, Bool-cases, arith, ◌∙◌, List, length, get_elem?,
  get_elem?_total, All, bit_and,
}
use wine_glass.Base.Bits.{bit_and_low}
use wine_glass.Memory.Valid.{IsByte}
use wine_glass.X86.Decode.Types.{Instruction, IsInstruction, IsOperand, zero_operand}
use wine_glass.X86.Decode.Fetch.{Ctx, ◌>>=◌, fetch8, get_ctx, effective_op_size}
use wine_glass.X86.Decode.{
  prefix, parse_prefixes, start, with_prefixes, decode_body, finish, after_prefixes, decode,
}
use wine_glass.X86.Decode.Safe.{IsCtx, Outcome}
use wine_glass.X86.Decode.Safe.Rows.{IsOpSize}
use wine_glass.X86.Decode.Safe.Switch.{decode_opcode-Runs}

-- A prefix leaves the cursor where it is.
record Kept (c d : Ctx) : Type 0 where
  valid : IsCtx d
  same_code : d.code ≡ c.code
  same_end : d.end ≡ c.end
  same_pos : d.pos ≡ c.pos

abbrev IsKept : Ctx → Option Ctx → Type 0
IsKept c none = Unit
IsKept c (some d) = Kept c d

module _ (c : Ctx) (v : IsCtx c) where
  either_way :
      (b : Bool) (x y : Option Ctx) → IsKept c x → IsKept c y → IsKept c (if b then x else y)
  either_way true x y h k = h
  either_way false x y h k = k

  low_bit : (n : ℕ) → bit_and n 1 ≤ 1
  low_bit n = omega (arith, bit_and_low 1 n)

  kept :
      (d : Ctx)
      → d.code ≡ c.code
      → d.end ≡ c.end
      → d.pos ≡ c.pos
      → d.rex_r ≤ 1
      → d.rex_x ≤ 1
      → d.rex_b ≤ 1
      → Kept c d
  kept d sc se sp r x b = record {
    valid = record {
      inside = omega (arith, v.inside);
      in_code = rw (sc, se) v.in_code;
      bytes = rw sc v.bytes;
      r_bit = r;
      x_bit = x;
      b_bit = b;
    };
    same_code = sc;
    same_end = se;
    same_pos = sp;
  }

  plain :
      {d : Ctx}
      → d.code ≡ c.code
      → d.end ≡ c.end
      → d.pos ≡ c.pos
      → d.rex_r ≡ c.rex_r
      → d.rex_x ≡ c.rex_x
      → d.rex_b ≡ c.rex_b
      → Kept c d
  plain {d} sc se sp er ex eb = kept d sc se sp (rw er v.r_bit) (rw ex v.x_bit) (rw eb v.b_bit)

  prefix-IsKept : (b : ℕ) → IsKept c (prefix b c)
  unfolding prefix
  prefix-IsKept b = either_way (b == 0xF0) _ _ (plain refl refl refl refl refl refl) (
      either_way (b == 0xF2) _ _ (plain refl refl refl refl refl refl) (
        either_way (b == 0xF3) _ _ (plain refl refl refl refl refl refl) (
          either_way (b == 0x66) _ _ (plain refl refl refl refl refl refl) (
            either_way (b == 0x67) _ _ (plain refl refl refl refl refl refl) (
              either_way (b == 0x26) _ _ (plain refl refl refl refl refl refl) (
                either_way (b == 0x2E) _ _ (plain refl refl refl refl refl refl) (
                  either_way (b == 0x36) _ _ (plain refl refl refl refl refl refl) (
                    either_way (b == 0x3E) _ _ (plain refl refl refl refl refl refl) (
                      either_way (b == 0x64) _ _ (plain refl refl refl refl refl refl) (
                        either_way (b == 0x65) _ _ (plain refl refl refl refl refl refl) (
                          either_way (leb 0x40 b && leb b 0x4F) _ _
                            (kept _ refl refl refl (low_bit _) (low_bit _) (low_bit _))
                            tt)))))))))))

effective_op_size-IsOpSize : (c : Ctx) → IsOpSize (effective_op_size c)
unfolding effective_op_size
effective_op_size-IsOpSize c = ground arith

-- The prefixes do not fault, and the loop has rounds enough: it ends at the end of the buffer or
-- in front of a byte that is no prefix.
abbrev Parsed : Ctx → Option Ctx → Type 0
Parsed c none = ⊥
Parsed c (some d) =
    IsCtx d
    × (d.code ≡ c.code)
    × (d.end ≡ c.end)
    × ((d.end ≤ d.pos) ⊎ ((b : ℕ) × (get_elem? d.code d.pos ≡ some b) × (prefix b d ≡ none)))

after_prefix :
    (c d : Ctx) (r : Option Ctx) → d.code ≡ c.code → d.end ≡ c.end → Parsed d r → Parsed c r
after_prefix c d none sc se x = elim x [ ]
after_prefix c d (some e) sc se (v, fc, fe, stop) = (v, fc ∙ sc, fe ∙ se, stop)

parse_prefixes-Parsed :
    (n : ℕ) (c : Ctx) → IsCtx c → c.end ≤ c.pos + n → Parsed c (parse_prefixes n c)
unfolding parse_prefixes
parse_prefixes-Parsed zero c v h = (v, refl, refl, inl (omega arith))
parse_prefixes-Parsed (suc n) c v h = elim (Bool-cases (leb c.end c.pos)) [
  | inl e ↦ rw (e, parse_prefixes) (v, refl, refl, inl (ground arith))
  | inr e ↦
      let (b, at) = get_elem?_total c.code c.pos (ground (arith, v.in_code)) in
      elim (Option-cases (prefix b c)) [
        | inl last ↦ rw (e, at, last, parse_prefixes) (v, refl, refl, inr (b, at, last))
        | inr (d, more) ↦
            rw (e, at, more, parse_prefixes)
              (let k = subst (IsKept c) more (prefix-IsKept c v b) in
                let next = record d { pos = d.pos + 1 } in
                after_prefix c next (parse_prefixes n next) k.same_code k.same_end (
                  parse_prefixes-Parsed n next
                    (record {
                      inside = ground (arith, k.same_end, k.same_pos);
                      in_code = k.valid.in_code;
                      bytes = k.valid.bytes;
                      r_bit = k.valid.r_bit;
                      x_bit = k.valid.x_bit;
                      b_bit = k.valid.b_bit;
                    })
                    (omega (arith, k.same_end, k.same_pos))))
      ]
]

zero_operand-IsOperand : IsOperand zero_operand
zero_operand-IsOperand = record {
  reg_fits = omega arith;
  base_fits = omega arith;
  index_fits = omega arith;
  scale_fits = omega arith;
  disp_fits = omega arith;
  imm_fits = omega arith;
  size_fits = omega arith;
}

blank-valid : (c : Ctx) → IsInstruction (record (with_prefixes c) { op_size = effective_op_size c })
blank-valid c = record {
  op0_valid = zero_operand-IsOperand;
  op1_valid = zero_operand-IsOperand;
  op2_valid = zero_operand-IsOperand;
  size_valid = effective_op_size-IsOpSize c;
  condition_fits = omega arith;
}

-- The opcode byte is taken, so the cursor ends at least one byte further.
decode_body-Outcome :
    (c : Ctx)
    → IsCtx c
    → c.pos < c.end
    → Outcome IsInstruction (record c { pos = c.pos + 1 }) (decode_body c)
unfolding decode_body ◌>>=◌ get_ctx fetch8
decode_body-Outcome c v h =
    let (b, at) = get_elem?_total c.code c.pos (omega (arith, v.in_code)) in
    let shut : leb c.end c.pos ≡ false = ground arith in
    rw (shut, at)
      ((decode_opcode-Runs _ (blank-valid c) _ (effective_op_size-IsOpSize c) b).at
        (record c { pos = c.pos + 1 })
        (record {
          inside = omega arith;
          in_code = v.in_code;
          bytes = v.bytes;
          r_bit = v.r_bit;
          x_bit = v.x_bit;
          b_bit = v.b_bit;
        }))

-- The outcomes of a decoder on `max_len` bytes of a buffer. A length of 0 is a failure.
abbrev pub Decoded : List ℕ → ℕ → Option (ℕ × Instruction) → Type 0
Decoded code max_len none = max_len ≡ length code
Decoded code max_len (some (len, i)) =
    (len ≡ 0) ⊎ ((0 < len) × (len ≤ max_len) × (i.length ≡ len) × IsInstruction i)

finish-Decoded :
    (c : Ctx) (r : Option (Instruction × Ctx)) (code : List ℕ) (max_len : ℕ)
    → c.code ≡ code
    → c.end ≡ max_len
    → 0 < c.pos
    → Outcome IsInstruction c r
    → Decoded code max_len (finish r)
finish-Decoded c none code max_len sc se pos e = sym se ∙ e ∙ rw sc
finish-Decoded c (some (i, d)) code max_len sc se pos (v, fc, fe, moved, h) = inr (
  omega arith,
  omega (arith, v.inside, fe),
  refl,
  record {
    op0_valid = h.op0_valid;
    op1_valid = h.op1_valid;
    op2_valid = h.op2_valid;
    size_valid = h.size_valid;
    condition_fits = h.condition_fits;
  },
)

after_prefixes-Decoded :
    (code : List ℕ) (max_len : ℕ) (r : Option Ctx)
    → Parsed (start code max_len 0) r
    → Decoded code max_len (after_prefixes r)
after_prefixes-Decoded code max_len none x = elim x [ ]
after_prefixes-Decoded code max_len (some c) (v, sc, se, stop) =
    elim (Bool-cases (leb c.end c.pos)) [
      | inl e ↦ rw e (inl refl)
      | inr e ↦ rw e (
          finish-Decoded (record c { pos = c.pos + 1 }) (decode_body c) code max_len sc se
            (omega arith) (decode_body-Outcome c v (ground arith)))
    ]

-- On a buffer of bytes, a decoder that may look at `max_len` of them gives a length of at most
-- `max_len` with an instruction whose operands are all usable (registers below 16, immediates of
-- 64 bits, an operand size of 2, 4 or 8), or it fails with length 0. It reads past the buffer's
-- end only where `max_len` is the whole buffer: one byte of slack makes every call safe.
pub decode-Decoded :
    (code : List ℕ) (max_len rip : ℕ)
    → All IsByte code
    → max_len ≤ length code
    → Decoded code max_len (decode code max_len rip)
unfolding decode
decode-Decoded code zero rip bytes h = inl refl
decode-Decoded code (suc n) rip bytes h =
    rw (nonzero n, decode)
      (after_prefixes-Decoded code (suc n) (parse_prefixes (suc n) (start code (suc n) rip)) (
        parse_prefixes-Parsed (suc n) (start code (suc n) rip)
          (record {
            inside = omega arith;
            in_code = h;
            bytes = bytes;
            r_bit = omega arith;
            x_bit = omega arith;
            b_bit = omega arith;
          })
          (omega arith)))
  where
    nonzero : (n : ℕ) → (suc n == 0) ≡ false
    nonzero n = ground arith
