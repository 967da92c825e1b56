-- ===== src/Pe/Load.antt =====
-- `wg_pe_load_memory` of Sources/PE/wg_pe_loader.c returns accepted images only.
use mathlib.Core.Path.{subst}
use wine_glass.Base.{
  ℕ, ◌+◌, ◌≤◌, ◌≡◌, ◌⊎◌, inl, inr, refl, sym, ap, ◌∙◌, Bool, true, false, not, Option, none, some,
  List, ltb, ◌==◌, length, Bool-cases, ==_iff, arith,
}
use wine_glass.Base.Words.{u32}
use wine_glass.Pe.Types.{Outcome, Image}
use wine_glass.Pe.{read_le, opened_at, opened_by, load_headers, load_memory}
use wine_glass.Pe.Loaded.{Yields, Yields->>=, of_Yields}
use wine_glass.Pe.Accepted.{IsImage, IsAccepted, Opened, opened_at-Opened}

abbrev Known : ℕ → Image → Type 0
Known magic img =
    ((magic ≡ 0x20B) × (img.is_64bit ≡ true)) ⊎ ((magic ≡ 0x10B) × (img.is_64bit ≡ false))

module _ (file : List ℕ) (coff machine count magic : ℕ) where
  abbrev KnownImage : Option Image → Type 0
  KnownImage none = Unit
  KnownImage (some img) = Known magic img × IsImage file coff machine count img.is_64bit img

  known_image :
      (is_64bit : Bool) (r : Option Image)
      → ((magic ≡ 0x20B) × (is_64bit ≡ true)) ⊎ ((magic ≡ 0x10B) × (is_64bit ≡ false))
      → Opened file coff machine count is_64bit r
      → KnownImage r
  known_image is_64bit none k v = tt
  known_image is_64bit (some img) k v = (
    subst (λ b. ((magic ≡ 0x20B) × (b ≡ true)) ⊎ ((magic ≡ 0x10B) × (b ≡ false))) (sym v.width) k,
    subst (λ b. IsImage file coff machine count b img) (sym v.width) v,
  )

  opened-KnownImage :
      (is_64bit : Bool)
      → ((magic ≡ 0x20B) × (is_64bit ≡ true)) ⊎ ((magic ≡ 0x10B) × (is_64bit ≡ false))
      → Yields KnownImage (opened_at file coff machine count is_64bit)
  opened-KnownImage is_64bit k =
      weaken (opened_at file coff machine count is_64bit)
        (opened_at-Opened file coff machine count is_64bit)
    where
      weaken :
          (m : Outcome (Option Image))
          → Yields (Opened file coff machine count is_64bit) m
          → Yields KnownImage m
      weaken (Outcome.ok r) y = known_image is_64bit r k y
      weaken Outcome.fault y = tt
      weaken Outcome.out_of_fuel y = tt

  opened_by-KnownImage : Yields KnownImage (opened_by file coff machine count magic)
  unfolding opened_by
  opened_by-KnownImage = elim (Bool-cases (magic == 0x20B)) [
    | inl e ↦ rw e (opened-KnownImage true (inl ((==_iff magic 0x20B).0 e, refl)))
    | inr e ↦ elim (Bool-cases (magic == 0x10B)) [
      | inl f ↦ rw (e, f) (opened-KnownImage false (inr ((==_iff magic 0x10B).0 f, refl)))
      | inr f ↦ rw (e, f) tt
    ]
  ]

abbrev Accepted : List ℕ → Option Image → Type 0
Accepted file none = Unit
Accepted file (some img) = IsAccepted file img

module _ (alloc : List ℕ → Bool) (file : List ℕ) (pe : ℕ) (big : 64 ≤ length file)
    (mz : read_le 2 file 0 ≡ Outcome.ok 0x5A4D) (at : read_le 4 file 60 ≡ Outcome.ok pe)
    (inside : u32 (pe + 4) ≤ length file) (sig : read_le 4 file pe ≡ Outcome.ok 0x4550) where
  with_headers :
      (machine count magic : ℕ) (r : Option Image)
      → read_le 2 file (pe + 4) ≡ Outcome.ok machine
      → read_le 2 file (pe + 4 + 2) ≡ Outcome.ok count
      → read_le 2 file (pe + 4 + 20) ≡ Outcome.ok magic
      → KnownImage file (pe + 4) machine count magic r
      → Accepted file r
  with_headers machine count magic none m c g v = tt
  with_headers machine count magic (some img) m c g v = record {
    dos_header = big;
    dos_signature = mz;
    pe_offset = pe;
    pe_offset_read = at;
    pe_offset_checked = inside;
    nt_signature = sig;
    machine = machine;
    machine_read = m;
    count = count;
    count_read = c;
    magic = magic;
    magic_read = g;
    magic_known = v.0;
    image = v.1;
  }

  all_headers :
      (machine count magic : ℕ) (m : Outcome (Option Image))
      → read_le 2 file (pe + 4) ≡ Outcome.ok machine
      → read_le 2 file (pe + 4 + 2) ≡ Outcome.ok count
      → read_le 2 file (pe + 4 + 20) ≡ Outcome.ok magic
      → Yields (KnownImage file (pe + 4) machine count magic) m
      → Yields (Accepted file) m
  all_headers machine count magic (Outcome.ok r) a b c y =
      with_headers machine count magic r a b c y
  all_headers machine count magic Outcome.fault a b c y = tt
  all_headers machine count magic Outcome.out_of_fuel a b c y = tt

  load_headers-Accepted : Yields (Accepted file) (load_headers alloc file (pe + 4))
  unfolding load_headers
  load_headers-Accepted = Yields->>= (Accepted file) (read_le 2 file (pe + 4)) _ λ machine e.
      Yields->>= (Accepted file) (read_le 2 file (pe + 4 + 2)) _ λ count f.
        elim (Bool-cases (alloc file)) [
          | inr g ↦ rw g tt
          | inl g ↦ rw g (
              Yields->>= (Accepted file) (read_le 2 file (pe + 4 + 20)) _ λ magic h.
                all_headers machine count magic (opened_by file (pe + 4) machine count magic) e f h
                  (opened_by-KnownImage file (pe + 4) machine count magic))
        ]

load_memory-Accepted :
    (alloc : List ℕ → Bool) (file : List ℕ) → Yields (Accepted file) (load_memory alloc file)
unfolding load_memory
load_memory-Accepted alloc file = elim (Bool-cases (ltb (length file) 64)) [
  | inl e ↦ rw e tt
  | inr e ↦ rw e (
      Yields->>= (Accepted file) (read_le 2 file 0) _ λ m f. elim (Bool-cases (not (m == 0x5A4D))) [
        | inl g ↦ rw g tt
        | inr g ↦ rw g (
            Yields->>= (Accepted file) (read_le 4 file 60) _ λ o h.
              elim (Bool-cases (ltb (length file) (u32 (o + 4)))) [
                | inl k ↦ rw k tt
                | inr k ↦ rw k (
                    Yields->>= (Accepted file) (read_le 4 file o) _ λ s l.
                      elim (Bool-cases (not (s == 0x4550))) [
                        | inl q ↦ rw q tt
                        | inr q ↦
                            let mz : m ≡ 0x5A4D = ground arith in
                            let pe_sig : s ≡ 0x4550 = ground arith in
                            rw q (
                              load_headers-Accepted alloc file o (ground arith)
                                (f ∙ ap Outcome.ok mz) h (ground arith) (l ∙ ap Outcome.ok pe_sig))
                      ])
              ])
      ])
]

-- An image that the loader returns was read from a file with both signatures, a PE offset that
-- passed the 32-bit check and a known optional header, whose format it has; it keeps the file's
-- bytes, the machine, the sections of the headers, at most 96, each with its bytes at the place its
-- header names, inside the file if the end does not wrap in 32 bits, and at most 256 import tables
-- of at most 4096 functions.
pub load_memory-IsAccepted :
    (alloc : List ℕ → Bool) (file : List ℕ) (img : Image)
    → load_memory alloc file ≡ Outcome.ok (some img)
    → IsAccepted file img
load_memory-IsAccepted alloc file img e =
    of_Yields (Accepted file) (load_memory alloc file) (some img) (load_memory-Accepted alloc file)
      e
