-- ===== src/Pe/Rva.antt =====
-- Addresses in a loaded image, `rva_to_ptr` of Sources/PE/wg_pe_loader.c.
use mathlib.Core.Option.{some-injective}
use wine_glass.Base.{
  ℕ, zero, suc, ◌+◌, ◌-◌, ◌^◌, ◌≤◌, ◌<◌, ◌≡◌, inl, inr, refl, sym, ◌∙◌, Bool, Option, none, some,
  List, [], ◌∷◌, ltb, if◌then◌else◌, length, get_elem?, All, All-get, Bool-cases, arith,
}
use wine_glass.Pe.Types.{Outcome, Section, Image}
use wine_glass.Pe.{rva_to_ptr, contains_rva, place, or_else, load_memory}
use wine_glass.Pe.Loaded.{IsPlaced, Headers}
use wine_glass.Pe.Load.{load_memory-IsAccepted}

-- Offset `p` is the place of address `rva` in the bytes of section `s`.
pub record IsPlace (s : Section) (rva p : ℕ) : Type 0 where
  pub start : ℕ
  pub started : s.start ≡ some start
  pub above : s.virtual_address ≤ rva
  pub below : rva < s.virtual_address + s.raw_size
  pub there : p ≡ start + (rva - s.virtual_address)

placed_at :
    (s : Section) (rva p : ℕ) (start : Option ℕ)
    → s.start ≡ start
    → s.virtual_address ≤ rva
    → (elim start [
      | none ↦ none
      | some o ↦
          if ltb (rva - s.virtual_address) s.raw_size
          then some (o + (rva - s.virtual_address))
          else none
    ])
      ≡ some p
    → IsPlace s rva p
placed_at s rva p none e l h = absurd cc
placed_at s rva p (some o) e l h = elim (Bool-cases (ltb (rva - s.virtual_address) s.raw_size)) [
  | inl t ↦
      let h : some (o + (rva - s.virtual_address)) ≡ some p = rw t at h in
      record {
        start = o;
        started = e;
        above = l;
        below = ground (arith);
        there = sym (some-injective _ _ h);
      }
  | inr t ↦ let h : none ≡ some p = rw t at h in absurd cc
]

in_section :
    (s : Section) (rva p : ℕ)
    → (if contains_rva s rva then place s rva else none) ≡ some p
    → IsPlace s rva p
in_section s rva p h = elim (Bool-cases (contains_rva s rva)) [
  | inl t ↦ placed_at s rva p s.start refl (ground arith) (rw t at h)
  | inr t ↦ let h : none ≡ some p = rw t at h in absurd cc
]

pub rva_to_ptr-IsPlace :
    (sections : List Section) (rva p : ℕ)
    → rva_to_ptr sections rva ≡ some p
    → (i : ℕ) × (s : Section) × (get_elem? sections i ≡ some s) × IsPlace s rva p
unfolding rva_to_ptr
rva_to_ptr-IsPlace [] rva p h = absurd cc
rva_to_ptr-IsPlace (s ∷ sections) rva p h =
    by_first (if contains_rva s rva then place s rva else none) refl h
      (rva_to_ptr-IsPlace sections rva p)
  where
    by_first :
        (r : Option ℕ)
        → (if contains_rva s rva then place s rva else none) ≡ r
        → or_else r (rva_to_ptr sections rva) ≡ some p
        → (rva_to_ptr sections rva ≡ some p
            → (i : ℕ) × (t : Section) × (get_elem? sections i ≡ some t) × IsPlace t rva p)
        → (i : ℕ) × (t : Section) × (get_elem? (s ∷ sections) i ≡ some t) × IsPlace t rva p
    by_first none e h rest = let (i, t, at, v) = rest h in (suc i, t, at, v)
    by_first (some q) e h rest = (0, s, refl, in_section s rva p (e ∙ h))

Headers-IsPlaced :
    (file : List ℕ) (n p : ℕ) (sections : List Section)
    → Headers file n p sections
    → All (IsPlaced file) sections
Headers-IsPlaced file zero p [] h = tt
Headers-IsPlaced file zero p (s ∷ sections) h = absurd h
Headers-IsPlaced file (suc n) p [] h = tt
Headers-IsPlaced file (suc n) p (s ∷ sections) h =
    (h.1, Headers-IsPlaced file n (p + 40) sections h.2)

-- In an image that the loader returned, an address that is found is the place of that address in one
-- of the sections with bytes; it is inside the file if the section's end in the file does not wrap in
-- 32 bits.
pub load_memory-rva_to_ptr :
    (alloc : List ℕ → Bool) (file : List ℕ) (img : Image) (rva p : ℕ)
    → load_memory alloc file ≡ Outcome.ok (some img)
    → rva_to_ptr img.sections rva ≡ some p
    → (i : ℕ) × (s : Section) × (get_elem? img.sections i ≡ some s)
      × IsPlace s rva p
      × (s.raw_offset + s.raw_size < 2 ^ 32 → p < length file)
load_memory-rva_to_ptr alloc file img rva p e h =
    let accepted = load_memory-IsAccepted alloc file img e in
    let (i, s, at, v) = rva_to_ptr-IsPlace img.sections rva p h in
    let placed =
      All-get (IsPlaced file) img.sections i
        (Headers-IsPlaced file _ _ img.sections accepted.image.from_headers) at in
    (i, s, at, v, λ l. omega (arith, v.above, v.below, v.there, placed.ends v.start v.started l))
