-- ===== src/Pe/Terminates.antt =====
-- Every run of the loader of Sources/PE/wg_pe_loader.c ends.
use wine_glass.Base.{
  ℕ, zero, suc, ◌+◌, ◌*◌, not, inl, inr, Bool, true, false, List, ltb, ◌==◌, if◌then◌else◌, length,
  Bool-cases,
}
use wine_glass.Pe.Types.{Optional}
use wine_glass.Base.Words.{u32}
use wine_glass.Pe.{
  read_le, read_bytes, section_at, sections_at, optional_at, entry_at, directory_at, image_at,
  opened_at, opened_by, load_headers, load_memory,
}
use wine_glass.Pe.Imports.{Ends, Ends->>=, read_le-Ends, read_bytes-Ends, parse_imports-Ends}

section_at-Ends : (file : List ℕ) (p : ℕ) → Ends (section_at file p)
unfolding section_at
section_at-Ends file p = Ends->>= (read_bytes 8 file p) _ (read_bytes-Ends 8 file p) λ a e.
    Ends->>= (read_le 4 file (p + 8)) _ (read_le-Ends 4 file (p + 8)) λ b f.
      Ends->>= (read_le 4 file (p + 12)) _ (read_le-Ends 4 file (p + 12)) λ c g.
        Ends->>= (read_le 4 file (p + 16)) _ (read_le-Ends 4 file (p + 16)) λ d h.
          Ends->>= (read_le 4 file (p + 20)) _ (read_le-Ends 4 file (p + 20))
            λ o k. Ends->>= (read_le 4 file (p + 36)) _ (read_le-Ends 4 file (p + 36)) λ q l. tt

sections_at-Ends : (file : List ℕ) (n p : ℕ) → Ends (sections_at file n p)
unfolding sections_at
sections_at-Ends file zero p = tt
sections_at-Ends file (suc n) p =
    Ends->>= (section_at file p) _ (section_at-Ends file p)
      λ s e. Ends->>= (sections_at file n (p + 40)) _ (sections_at-Ends file n (p + 40)) λ r f. tt

base-Ends :
    (file : List ℕ) (p : ℕ) (is_64bit : Bool)
    → Ends (if is_64bit then read_le 8 file (p + 24) else read_le 4 file (p + 28))
base-Ends file p true = read_le-Ends 8 file (p + 24)
base-Ends file p false = read_le-Ends 4 file (p + 28)

optional_at-Ends : (file : List ℕ) (p : ℕ) (is_64bit : Bool) → Ends (optional_at file p is_64bit)
unfolding optional_at
optional_at-Ends file p is_64bit =
    let last = if is_64bit then p + 108 else p + 92 in
    Ends->>= (read_le 4 file (p + 16)) _ (read_le-Ends 4 file (p + 16)) λ a e.
      Ends->>= _ _ (base-Ends file p is_64bit) λ b f.
        Ends->>= (read_le 4 file (p + 56)) _ (read_le-Ends 4 file (p + 56)) λ c g.
          Ends->>= (read_le 4 file (p + 60)) _ (read_le-Ends 4 file (p + 60)) λ d h.
            Ends->>= (read_le 2 file (p + 68)) _ (read_le-Ends 2 file (p + 68)) λ o k.
              Ends->>= (read_le 2 file (p + 70)) _ (read_le-Ends 2 file (p + 70))
                λ q l. Ends->>= (read_le 4 file last) _ (read_le-Ends 4 file last) λ m n. tt

directory_at-Ends : (file : List ℕ) (opt : Optional) (k : ℕ) → Ends (directory_at file opt k)
unfolding directory_at entry_at
directory_at-Ends file opt k = elim (Bool-cases (ltb k opt.num_directories)) [
  | inr e ↦ rw e tt
  | inl e ↦
      let p = opt.directories + 8 * k in
      rw e (
        Ends->>= (read_le 4 file p) _ (read_le-Ends 4 file p)
          λ a f. Ends->>= (read_le 4 file (p + 4)) _ (read_le-Ends 4 file (p + 4)) λ b g. tt)
]

image_at-Ends :
    (file : List ℕ) (coff machine count : ℕ) (opt : Optional)
    → Ends (image_at file coff machine count opt)
unfolding image_at
image_at-Ends file coff machine count opt =
    Ends->>= (read_le 2 file (coff + 16)) _ (read_le-Ends 2 file (coff + 16)) λ a e.
      Ends->>= _ _ (sections_at-Ends file _ (coff + 20 + a)) λ s f.
        Ends->>= (directory_at file opt 1) _ (directory_at-Ends file opt 1) λ d g.
          Ends->>= _ _ (parse_imports-Ends file s opt.is_64bit d) λ i h.
            Ends->>= (directory_at file opt 0) _ (directory_at-Ends file opt 0) λ x k.
              Ends->>= (directory_at file opt 5) _ (directory_at-Ends file opt 5)
                λ y l. Ends->>= (directory_at file opt 9) _ (directory_at-Ends file opt 9) λ z m. tt

opened_at-Ends :
    (file : List ℕ) (coff machine count : ℕ) (is_64bit : Bool)
    → Ends (opened_at file coff machine count is_64bit)
unfolding opened_at
opened_at-Ends file coff machine count is_64bit =
    Ends->>= (optional_at file (coff + 20) is_64bit) _ (optional_at-Ends file (coff + 20) is_64bit)
      λ opt e.
        Ends->>= (image_at file coff machine count opt) _
          (image_at-Ends file coff machine count opt) λ img f. tt

opened_by-Ends :
    (file : List ℕ) (coff machine count magic : ℕ) → Ends (opened_by file coff machine count magic)
unfolding opened_by
opened_by-Ends file coff machine count magic = elim (Bool-cases (magic == 0x20B)) [
  | inl e ↦ rw e (opened_at-Ends file coff machine count true)
  | inr e ↦ elim (Bool-cases (magic == 0x10B)) [
    | inl f ↦ rw (e, f) (opened_at-Ends file coff machine count false)
    | inr f ↦ rw (e, f) tt
  ]
]

load_headers-Ends :
    (alloc : List ℕ → Bool) (file : List ℕ) (coff : ℕ) → Ends (load_headers alloc file coff)
unfolding load_headers
load_headers-Ends alloc file coff =
    Ends->>= (read_le 2 file coff) _ (read_le-Ends 2 file coff) λ m e.
      Ends->>= (read_le 2 file (coff + 2)) _ (read_le-Ends 2 file (coff + 2)) λ c f.
        elim (Bool-cases (alloc file)) [
          | inl g ↦ rw g (
              Ends->>= (read_le 2 file (coff + 20)) _ (read_le-Ends 2 file (coff + 20))
                λ magic h. opened_by-Ends file coff m c magic)
          | inr g ↦ rw g tt
        ]

-- On any bytes the loader ends: with an image, with NULL, or by a read outside the file. The rounds
-- over import descriptors, which are not counted where a thunk list is missing, need no more fuel
-- than the file has bytes.
pub load_memory-Ends : (alloc : List ℕ → Bool) (file : List ℕ) → Ends (load_memory alloc file)
unfolding load_memory
load_memory-Ends alloc file = elim (Bool-cases (ltb (length file) 64)) [
  | inl e ↦ rw e tt
  | inr e ↦ rw e (
      Ends->>= (read_le 2 file 0) _ (read_le-Ends 2 file 0) λ m f.
        elim (Bool-cases (not (m == 0x5A4D))) [
          | inl g ↦ rw g tt
          | inr g ↦ rw g (
              Ends->>= (read_le 4 file 60) _ (read_le-Ends 4 file 60) λ o h.
                elim (Bool-cases (ltb (length file) (u32 (o + 4)))) [
                  | inl k ↦ rw k tt
                  | inr k ↦ rw k (
                      Ends->>= (read_le 4 file o) _ (read_le-Ends 4 file o) λ s l.
                        elim (Bool-cases (not (s == 0x4550))) [
                          | inl q ↦ rw q tt
                          | inr q ↦ rw q (load_headers-Ends alloc file (o + 4))
                        ])
                ])
        ])
]
