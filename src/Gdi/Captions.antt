-- ===== src/Gdi/Captions.antt =====
-- The mnemonic markers of captions in Sources/Win32/wg_win32_gdi.c.
use wine_glass.Base.{
  ℕ, zero, suc, ◌≡◌, refl, ap, ◌∙◌, false, List, [], ◌∷◌, ◌==◌, ==_iff, if◌then◌else◌, Bool-cases,
  inl, inr,
}
use wine_glass.Gdi.{strip_mnemonics, first_units}

-- A text as a caption shows it: each `&` is doubled.
abbrev pub escape : List ℕ → List ℕ
escape [] = []
escape (c ∷ text) = if c == 0x26 then 0x26 ∷ 0x26 ∷ escape text else c ∷ escape text

strip-plain :
    (room c : ℕ) (text : List ℕ)
    → (c == 0x26) ≡ false
    → strip_mnemonics (suc room) (c ∷ text) ≡ c ∷ strip_mnemonics room text
unfolding strip_mnemonics
strip-plain zero c [] e = rw e refl
strip-plain (suc room) c [] e = rw e refl
strip-plain room c (d ∷ text) e = rw (e, strip_mnemonics) refl

-- Stripping the markers of a text in which every `&` was doubled gives the text back, cut to the room
-- of the buffer.
pub strip_mnemonics-escape :
    (room : ℕ) (text : List ℕ) → strip_mnemonics room (escape text) ≡ first_units room text
unfolding strip_mnemonics
strip_mnemonics-escape zero [] = refl
strip_mnemonics-escape (suc room) [] = refl
strip_mnemonics-escape zero (c ∷ text) = elim (Bool-cases (c == 0x26)) [
  | inl e ↦ rw e refl
  | inr e ↦ rw e refl
]
strip_mnemonics-escape (suc room) (c ∷ text) = elim (Bool-cases (c == 0x26)) [
  | inl e ↦
      rw (e, (==_iff c 0x26).0 e) (ap (λ rest. 0x26 ∷ rest) (strip_mnemonics-escape room text))
  | inr e ↦ rw e (
      strip-plain room c (escape text) e ∙ ap (λ rest. c ∷ rest) (strip_mnemonics-escape room text))
]
