-- ===== src/X86/Decode/Tests.antt =====
-- The decoder on single instructions.
use wine_glass.Base.{ℕ, List, [], ◌∷◌, arith, ◌≡◌, some, ◌++◌}
use wine_glass.X86.Decode.{decode}
use wine_glass.X86.Decode.Moves.{mov_bytes, mov_insn, decode-mov_bytes}
use wine_glass.X86.Decode.Safe.Whole.{Decoded, decode-Decoded}

-- mov rax, rcx, and the byte behind it
abbrev mov_rax_rcx : List ℕ
mov_rax_rcx = 0x48 ∷ 0x89 ∷ 0xC8 ∷ 0x90 ∷ []

decode-Decoded_example : Decoded mov_rax_rcx 3 (decode mov_rax_rcx 3 0x1000)
decode-Decoded_example =
    decode-Decoded mov_rax_rcx 3 0x1000
      (omega arith, (omega arith, (omega arith, (omega arith, tt)))) (omega arith)

-- mov r9, rdx
decode-mov_bytes_example : decode (mov_bytes 9 2 ++ 0x90 ∷ []) 16 0x1000 ≡ some (3, mov_insn 9 2)
decode-mov_bytes_example = decode-mov_bytes (0x90 ∷ []) 0x1000 9 2 (omega arith) (omega arith)
