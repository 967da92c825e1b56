-- ===== src/X86/Decode/Moves.antt =====
-- Register moves: the bytes of `mov r64, r64` and what `wg_x86_decode` makes of them.
use wine_glass.Base.{
  ℕ, zero, suc, ◌+◌, ◌*◌, ◌/◌, ◌%◌, ◌<◌, ◌≡◌, refl, some, arith, List, [], ◌∷◌, ◌++◌,
}
use wine_glass.X86.Decode.Types.{Instruction, Opcode, blank, reg_operand}
use wine_glass.X86.Decode.Fetch.{
  ◌>>=◌, peek, fetch8, get_ctx, effective_op_size, with_rex, decode_modrm_mem, decode_modrm,
}
use wine_glass.X86.Decode.Opcodes.{rm_reg}
use wine_glass.X86.Decode.Switch.{decode_opcode}
use wine_glass.X86.Decode.{prefix, parse_prefixes, decode_body, decode}

-- REX.W with the upper bits of the two register numbers, 89, and ModR/M with their lower bits.
abbrev pub mov_bytes : ℕ → ℕ → List ℕ
mov_bytes to from = (0x48 + from / 8 * 4 + to / 8) ∷ 0x89 ∷ (0xC0 + from % 8 * 8 + to % 8) ∷ []

abbrev pub mov_insn : ℕ → ℕ → Instruction
mov_insn to from = record blank {
  opcode = Opcode.mov;
  length = 3;
  op0 = reg_operand to 8;
  op1 = reg_operand from 8;
  num_operands = 2;
  op_size = 8;
  addr_size = 8;
}

-- A predicate that holds of each of the sixteen register numbers.
sixteen :
    (P : ℕ → Type 0)
    → P 0
    → P 1
    → P 2
    → P 3
    → P 4
    → P 5
    → P 6
    → P 7
    → P 8
    → P 9
    → P 10
    → P 11
    → P 12
    → P 13
    → P 14
    → P 15
    → (i : ℕ) → i < 16
    → P i
sixteen P p0 p1 p2 p3 p4 p5 p6 p7 p8 p9 p10 p11 p12 p13 p14 p15 zero h = p0
sixteen P p0 p1 p2 p3 p4 p5 p6 p7 p8 p9 p10 p11 p12 p13 p14 p15 (suc zero) h = p1
sixteen P p0 p1 p2 p3 p4 p5 p6 p7 p8 p9 p10 p11 p12 p13 p14 p15 (suc (suc zero)) h = p2
sixteen P p0 p1 p2 p3 p4 p5 p6 p7 p8 p9 p10 p11 p12 p13 p14 p15 (suc (suc (suc zero))) h = p3
sixteen P p0 p1 p2 p3 p4 p5 p6 p7 p8 p9 p10 p11 p12 p13 p14 p15 (suc (suc (suc (suc zero)))) h = p4
sixteen P p0 p1 p2 p3 p4 p5 p6 p7 p8 p9 p10 p11 p12 p13 p14 p15 (suc (suc (suc (suc (suc zero)))))
      h =
    p5
sixteen P p0 p1 p2 p3 p4 p5 p6 p7 p8 p9 p10 p11 p12 p13 p14 p15
      (suc (suc (suc (suc (suc (suc zero)))))) h =
    p6
sixteen P p0 p1 p2 p3 p4 p5 p6 p7 p8 p9 p10 p11 p12 p13 p14 p15
      (suc (suc (suc (suc (suc (suc (suc zero))))))) h =
    p7
sixteen P p0 p1 p2 p3 p4 p5 p6 p7 p8 p9 p10 p11 p12 p13 p14 p15
      (suc (suc (suc (suc (suc (suc (suc (suc zero)))))))) h =
    p8
sixteen P p0 p1 p2 p3 p4 p5 p6 p7 p8 p9 p10 p11 p12 p13 p14 p15
      (suc (suc (suc (suc (suc (suc (suc (suc (suc zero))))))))) h =
    p9
sixteen P p0 p1 p2 p3 p4 p5 p6 p7 p8 p9 p10 p11 p12 p13 p14 p15
      (suc (suc (suc (suc (suc (suc (suc (suc (suc (suc zero)))))))))) h =
    p10
sixteen P p0 p1 p2 p3 p4 p5 p6 p7 p8 p9 p10 p11 p12 p13 p14 p15
      (suc (suc (suc (suc (suc (suc (suc (suc (suc (suc (suc zero))))))))))) h =
    p11
sixteen P p0 p1 p2 p3 p4 p5 p6 p7 p8 p9 p10 p11 p12 p13 p14 p15
      (suc (suc (suc (suc (suc (suc (suc (suc (suc (suc (suc (suc zero)))))))))))) h =
    p12
sixteen P p0 p1 p2 p3 p4 p5 p6 p7 p8 p9 p10 p11 p12 p13 p14 p15
      (suc (suc (suc (suc (suc (suc (suc (suc (suc (suc (suc (suc (suc zero))))))))))))) h =
    p13
sixteen P p0 p1 p2 p3 p4 p5 p6 p7 p8 p9 p10 p11 p12 p13 p14 p15
      (suc (suc (suc (suc (suc (suc (suc (suc (suc (suc (suc (suc (suc (suc zero)))))))))))))) h =
    p14
sixteen P p0 p1 p2 p3 p4 p5 p6 p7 p8 p9 p10 p11 p12 p13 p14 p15
      (suc (suc (suc (suc (suc (suc (suc (suc (suc (suc (suc (suc (suc (suc (suc zero)))))))))))))))
      h =
    p15
sixteen P p0 p1 p2 p3 p4 p5 p6 p7 p8 p9 p10 p11 p12 p13 p14 p15
      (suc
        (suc (suc (suc (suc (suc (suc (suc (suc (suc (suc (suc (suc (suc (suc (suc i))))))))))))))))
      h =
    absurd (omega arith)

module _ (rest : List ℕ) (rip : ℕ) where
  abbrev Decodes : ℕ → ℕ → Type 0
  Decodes to from = decode (mov_bytes to from ++ rest) 16 rip ≡ some (3, mov_insn to from)

  -- The bytes of a 64-bit register move, for any two of the sixteen registers and whatever bytes
  -- follow them, decode to that move, with length 3.
  pub decode-mov_bytes :
      (to from : ℕ)
      → to < 16
      → from < 16
      → decode (mov_bytes to from ++ rest) 16 rip ≡ some (3, mov_insn to from)
  unfolding decode decode_body parse_prefixes prefix decode_opcode rm_reg decode_modrm
      decode_modrm_mem ◌>>=◌ peek fetch8 get_ctx effective_op_size with_rex
  decode-mov_bytes to from h k =
      sixteen (λ r. (q : ℕ) → q < 16 → Decodes r q)
        (sixteen (Decodes 0) refl refl refl refl refl refl refl refl refl refl refl refl refl refl
          refl refl)
        (sixteen (Decodes 1) refl refl refl refl refl refl refl refl refl refl refl refl refl refl
          refl refl)
        (sixteen (Decodes 2) refl refl refl refl refl refl refl refl refl refl refl refl refl refl
          refl refl)
        (sixteen (Decodes 3) refl refl refl refl refl refl refl refl refl refl refl refl refl refl
          refl refl)
        (sixteen (Decodes 4) refl refl refl refl refl refl refl refl refl refl refl refl refl refl
          refl refl)
        (sixteen (Decodes 5) refl refl refl refl refl refl refl refl refl refl refl refl refl refl
          refl refl)
        (sixteen (Decodes 6) refl refl refl refl refl refl refl refl refl refl refl refl refl refl
          refl refl)
        (sixteen (Decodes 7) refl refl refl refl refl refl refl refl refl refl refl refl refl refl
          refl refl)
        (sixteen (Decodes 8) refl refl refl refl refl refl refl refl refl refl refl refl refl refl
          refl refl)
        (sixteen (Decodes 9) refl refl refl refl refl refl refl refl refl refl refl refl refl refl
          refl refl)
        (sixteen (Decodes 10) refl refl refl refl refl refl refl refl refl refl refl refl refl refl
          refl refl)
        (sixteen (Decodes 11) refl refl refl refl refl refl refl refl refl refl refl refl refl refl
          refl refl)
        (sixteen (Decodes 12) refl refl refl refl refl refl refl refl refl refl refl refl refl refl
          refl refl)
        (sixteen (Decodes 13) refl refl refl refl refl refl refl refl refl refl refl refl refl refl
          refl refl)
        (sixteen (Decodes 14) refl refl refl refl refl refl refl refl refl refl refl refl refl refl
          refl refl)
        (sixteen (Decodes 15) refl refl refl refl refl refl refl refl refl refl refl refl refl refl
          refl refl)
        to h from k
