-- ===== src/Pe/Accepted.antt =====
-- What the loader of Sources/PE/wg_pe_loader.c has checked of an image that it returns.
use mathlib.Core.Path.{subst}
use wine_glass.Base.{
  ℕ, zero, suc, ◌+◌, ◌≤◌, ◌<◌, ◌≡◌, ◌⊎◌, inl, inr, refl, ◌∙◌, Bool, true, false, ◌||◌, not, Option,
  none, some, List, [], ◌∷◌, ◌++◌, leb, ◌==◌, if◌then◌else◌, length, length-append, All-append,
  Bool-cases, Option-cases, arith,
}
use wine_glass.Base.Words.{u32}
use wine_glass.Pe.Types.{Outcome, ◌>>=◌, Section, ImportFunc, ImportDll, Directory, Image, Optional}
use wine_glass.Pe.{
  read_le, c_string, import_funcs, Round, import_dll, import_round, import_loop, parse_imports,
  sections_at, optional_at, directory_at, section_count, image_at, opened_at, rva_to_ptr,
}
use wine_glass.Pe.Loaded.{
  Yields, Yields->>=, of_Yields, Headers, sections_at-Headers, length-Headers, Few, Fits,
  import_funcs-length,
}

abbrev FewAdded : Round → Type 0
FewAdded Round.stop = Unit
FewAdded Round.skip = Unit
FewAdded (Round.add d) = Few d

abbrev RoomLeft : ℕ → Round → Type 0
RoomLeft n Round.stop = Unit
RoomLeft n Round.skip = Unit
RoomLeft n (Round.add d) = (n < 256) × Few d

import_dll-FewAdded :
    (file : List ℕ) (sections : List Section) (w desc name : ℕ)
    → Yields FewAdded (import_dll file sections w desc name)
unfolding import_dll
import_dll-FewAdded file sections w desc name =
    Yields->>= FewAdded (c_string 255 file name) _ λ s e.
      Yields->>= FewAdded (read_le 4 file desc) _ λ o f.
        Yields->>= FewAdded (read_le 4 file (desc + 16)) _
          λ t g. by_thunks s t (rva_to_ptr sections (if not (o == 0) then o else t))
  where
    by_thunks :
        (s : List ℕ) (first : ℕ) (r : Option ℕ)
        → Yields FewAdded (elim r [
          | none ↦ Outcome.ok Round.skip
          | some thunk ↦ import_funcs file sections w first 4096 0 thunk >>= λ fs.
              Outcome.ok (Round.add (record { dll_name = s; functions = fs }))
        ])
    by_thunks s first none = tt
    by_thunks s first (some thunk) =
        Yields->>= FewAdded (import_funcs file sections w first 4096 0 thunk) _ λ fs q.
          of_Yields (λ (fs : List ImportFunc). length fs ≤ 4096)
            (import_funcs file sections w first 4096 0 thunk) fs
            (import_funcs-length file sections w first 4096 0 thunk) q

with_room : (n : ℕ) (m : Outcome Round) → n < 256 → Yields FewAdded m → Yields (RoomLeft n) m
with_room n (Outcome.ok Round.stop) l y = tt
with_room n (Outcome.ok Round.skip) l y = tt
with_room n (Outcome.ok (Round.add d)) l y = (l, y)
with_room n Outcome.fault l y = tt
with_room n Outcome.out_of_fuel l y = tt

import_round-RoomLeft :
    (file : List ℕ) (sections : List Section) (w desc n : ℕ)
    → Yields (RoomLeft n) (import_round file sections w desc n)
unfolding import_round
import_round-RoomLeft file sections w desc n =
    Yields->>= (RoomLeft n) (read_le 4 file (desc + 12)) _ λ name e.
      elim (Bool-cases ((name == 0) || leb 256 n)) [
        | inl f ↦ rw f tt
        | inr f ↦ elim (Option-cases (rva_to_ptr sections name)) [
          | inl g ↦ rw (f, g) tt
          | inr (p, g) ↦
              rw (f, g)
                (with_room n (import_dll file sections w desc p) (ground arith)
                  (import_dll-FewAdded file sections w desc p))
        ]
      ]

import_loop-Fits :
    (fuel : ℕ) (file : List ℕ) (sections : List Section) (w desc n : ℕ) (dlls : List ImportDll)
    → length dlls ≡ n
    → Fits dlls
    → Yields Fits (import_loop fuel file sections w desc n dlls)
unfolding import_loop
import_loop-Fits zero file sections w desc n dlls e v = tt
import_loop-Fits (suc fuel) file sections w desc n dlls e v =
    Yields->>= Fits (import_round file sections w desc n) _ λ r f.
      by_round r
        (of_Yields (RoomLeft n) (import_round file sections w desc n) r
          (import_round-RoomLeft file sections w desc n) f)
        (import_loop-Fits fuel file sections w (desc + 20))
  where
    by_round :
        (r : Round)
        → RoomLeft n r
        → ((m : ℕ) (more : List ImportDll)
            → length more ≡ m
            → Fits more
            → Yields Fits (import_loop fuel file sections w (desc + 20) m more))
        → Yields Fits (elim r [
          | Round.stop ↦ Outcome.ok dlls
          | Round.skip ↦ import_loop fuel file sections w (desc + 20) n dlls
          | Round.add d ↦ import_loop fuel file sections w (desc + 20) (n + 1) (dlls ++ d ∷ [])
        ])
    by_round Round.stop room rest = v
    by_round Round.skip room rest = rest n dlls e v
    by_round (Round.add d) room rest =
        let longer : length (dlls ++ d ∷ []) ≡ n + 1 =
          length-append dlls (d ∷ []) ∙ omega (arith, e) in
        rest (n + 1) (dlls ++ d ∷ []) longer
          (omega (arith, longer, room.0), All-append Few dlls (d ∷ []) v.1 (room.1, tt))

parse_imports-Fits :
    (file : List ℕ) (sections : List Section) (is_64bit : Bool) (dir : Directory)
    → Yields Fits (parse_imports file sections is_64bit dir)
unfolding parse_imports
parse_imports-Fits file sections is_64bit dir =
    elim (Bool-cases ((dir.rva == 0) || (dir.size == 0))) [
      | inl e ↦ rw e (omega arith, tt)
      | inr e ↦ elim (Option-cases (rva_to_ptr sections dir.rva)) [
        | inl f ↦ rw (e, f) (omega arith, tt)
        | inr (p, f) ↦
            rw (e, f)
              (import_loop-Fits (suc (length file)) file sections (if is_64bit then 8 else 4) p 0 []
                refl (omega arith, tt))
      ]
    ]

-- The image stands behind its COFF header at `coff`, which names `count` sections.
pub record IsImage (file : List ℕ) (coff machine count : ℕ) (is_64bit : Bool) (img : Image)
    : Type 0 where
  pub bytes : img.raw_data ≡ file
  pub width : img.is_64bit ≡ is_64bit
  pub built_for : img.machine ≡ machine
  pub few_sections : length img.sections ≤ 96
  pub opt_size : ℕ
  pub opt_size_read : read_le 2 file (coff + 16) ≡ Outcome.ok opt_size
  pub from_headers : Headers file (section_count count) (coff + 20 + opt_size) img.sections
  pub imports_fit : Fits img.imports

section_count-le : (count : ℕ) → section_count count ≤ 96
section_count-le count = ground arith

image_at-IsImage :
    (file : List ℕ) (coff machine count : ℕ) (opt : Optional)
    → Yields (IsImage file coff machine count opt.is_64bit) (image_at file coff machine count opt)
unfolding image_at
image_at-IsImage file coff machine count opt =
    let P : Image → Type 0 = IsImage file coff machine count opt.is_64bit in
    Yields->>= P (read_le 2 file (coff + 16)) _ λ size e.
      Yields->>= P (sections_at file (section_count count) (coff + 20 + size)) _ λ s f.
        Yields->>= P (directory_at file opt 1) _ λ d g.
          Yields->>= P (parse_imports file s opt.is_64bit d) _ λ i h.
            Yields->>= P (directory_at file opt 0) _ λ x k.
              Yields->>= P (directory_at file opt 5) _ λ y l.
                Yields->>= P (directory_at file opt 9) _ λ z m.
                  let headers =
                    of_Yields (Headers file (section_count count) (coff + 20 + size))
                      (sections_at file (section_count count) (coff + 20 + size)) s
                      (sections_at-Headers file (section_count count) (coff + 20 + size)) f in
                  record {
                    bytes = refl;
                    width = refl;
                    built_for = refl;
                    few_sections = omega (
                      arith,
                      length-Headers file (section_count count) (coff + 20 + size) s headers,
                      section_count-le count,
                    );
                    opt_size = size;
                    opt_size_read = e;
                    from_headers = headers;
                    imports_fit =
                        of_Yields Fits (parse_imports file s opt.is_64bit d) i
                          (parse_imports-Fits file s opt.is_64bit d) h;
                  }

-- What was checked in the bytes of the file on the way to an image.
pub record IsAccepted (file : List ℕ) (img : Image) : Type 0 where
  pub dos_header : 64 ≤ length file
  pub dos_signature : read_le 2 file 0 ≡ Outcome.ok 0x5A4D
  pub pe_offset : ℕ
  pub pe_offset_read : read_le 4 file 60 ≡ Outcome.ok pe_offset
  pub pe_offset_checked : u32 (pe_offset + 4) ≤ length file
  pub nt_signature : read_le 4 file pe_offset ≡ Outcome.ok 0x4550
  pub machine : ℕ
  pub machine_read : read_le 2 file (pe_offset + 4) ≡ Outcome.ok machine
  pub count : ℕ
  pub count_read : read_le 2 file (pe_offset + 4 + 2) ≡ Outcome.ok count
  pub magic : ℕ
  pub magic_read : read_le 2 file (pe_offset + 4 + 20) ≡ Outcome.ok magic
  pub magic_known :
      ((magic ≡ 0x20B) × (img.is_64bit ≡ true)) ⊎ ((magic ≡ 0x10B) × (img.is_64bit ≡ false))
  pub image : IsImage file (pe_offset + 4) machine count img.is_64bit img

optional_at-width :
    (file : List ℕ) (p : ℕ) (is_64bit : Bool)
    → Yields (λ opt. opt.is_64bit ≡ is_64bit) (optional_at file p is_64bit)
unfolding optional_at
optional_at-width file p is_64bit =
    let P : Optional → Type 0 = λ opt. opt.is_64bit ≡ is_64bit in
    Yields->>= P (read_le 4 file (p + 16)) _ λ a e.
      Yields->>= P (if is_64bit then read_le 8 file (p + 24) else read_le 4 file (p + 28)) _ λ b f.
        Yields->>= P (read_le 4 file (p + 56)) _ λ c g.
          Yields->>= P (read_le 4 file (p + 60)) _ λ d h.
            Yields->>= P (read_le 2 file (p + 68)) _ λ o k.
              Yields->>= P (read_le 2 file (p + 70)) _ λ q l.
                Yields->>= P (read_le 4 file (if is_64bit then p + 108 else p + 92)) _ λ m n. refl

module _ (file : List ℕ) (coff machine count : ℕ) where
  abbrev pub Opened : Bool → Option Image → Type 0
  Opened is_64bit none = Unit
  Opened is_64bit (some img) = IsImage file coff machine count is_64bit img

  pub opened_at-Opened :
      (is_64bit : Bool) → Yields (Opened is_64bit) (opened_at file coff machine count is_64bit)
  unfolding opened_at
  opened_at-Opened is_64bit =
      Yields->>= (Opened is_64bit) (optional_at file (coff + 20) is_64bit) _ λ opt e.
        Yields->>= (Opened is_64bit) (image_at file coff machine count opt) _ λ img f.
          let width =
            of_Yields (λ (opt : Optional). opt.is_64bit ≡ is_64bit)
              (optional_at file (coff + 20) is_64bit) opt
              (optional_at-width file (coff + 20) is_64bit) e in
          subst (λ b. IsImage file coff machine count b img) width
            (of_Yields (IsImage file coff machine count opt.is_64bit)
              (image_at file coff machine count opt) img
              (image_at-IsImage file coff machine count opt) f)
