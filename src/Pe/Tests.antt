-- ===== src/Pe/Tests.antt =====
-- The loader on a small file: one section of 16 bytes and an import of one function.
use wine_glass.Base.{
  ℕ, ◌^◌, ◌+◌, ◌≡◌, ◌<◌, refl, true, false, some, List, [], ◌∷◌, ◌++◌, replicate, length, get_elem?,
}
use wine_glass.Pe.Types.{Outcome, Section, Image}
use wine_glass.Pe.{
  read_le, rva_to_ptr, c_string, import_func, import_funcs, import_dll, import_round, import_loop,
  parse_imports, read_bytes, section_at, sections_at, optional_at, entry_at, directory_at, image_at,
  opened_at, opened_by, load_headers, load_memory,
}
use wine_glass.Pe.Accepted.{IsAccepted}
use wine_glass.Pe.Load.{load_memory-IsAccepted}
use wine_glass.Pe.Imports.{Ends}
use wine_glass.Pe.Terminates.{load_memory-Ends}
use wine_glass.Pe.Rva.{IsPlace, load_memory-rva_to_ptr}

abbrev word : ℕ → List ℕ
word n = n ∷ 0 ∷ 0 ∷ 0 ∷ []

abbrev dos_header : List ℕ
dos_header = 0x4D ∷ 0x5A ∷ replicate 58 0 ++ word 64

abbrev coff_header : List ℕ
coff_header = 0x50 ∷ 0x45 ∷ 0 ∷ 0 ∷ 0x4C ∷ 1 ∷ 1 ∷ 0 ∷ replicate 12 0 ++ 112 ∷ 0 ∷ 0 ∷ 0 ∷ []

-- The 32-bit header with two directories; the second names imports at 0x40.
abbrev optional_header : List ℕ
optional_header =
    0x0B ∷ 1 ∷ replicate 14 0
    ++ word 0x10
    ++ replicate 72 0
    ++ word 2
    ++ word 0
    ++ word 0
    ++ word 0x40
    ++ word 40

abbrev section_header : List ℕ
section_header =
    0x2E ∷ 0x74 ∷ replicate 6 0
    ++ word 64
    ++ word 0x40
    ++ word 64
    ++ 0xF0 ∷ 0 ∷ 0 ∷ 0 ∷ replicate 16 0

-- A descriptor, the null descriptor, the name "d" at 0x68, the thunks at 0x6C: ordinal 3 and the end.
abbrev imports : List ℕ
imports =
    word 0x6C
    ++ replicate 8 0
    ++ word 0x68
    ++ word 0x6C
    ++ replicate 20 0
    ++ word 0x64
    ++ 3 ∷ 0 ∷ 0 ∷ 0x80 ∷ word 0
    ++ replicate 12 0

abbrev file : List ℕ
file = dos_header ++ coff_header ++ optional_header ++ section_header ++ imports

abbrev text_section : Section
text_section = record {
  name = 0x2E ∷ 0x74 ∷ replicate 6 0;
  virtual_size = 64;
  virtual_address = 0x40;
  raw_size = 64;
  raw_offset = 0xF0;
  characteristics = 0;
  start = some 0xF0;
}

abbrev loaded : Image
loaded = record {
  image_base = 0;
  entry_point = 0x10;
  size_of_image = 0;
  size_of_headers = 0;
  subsystem = 0;
  dll_characteristics = 0;
  machine = 0x14C;
  is_64bit = false;
  sections = text_section ∷ [];
  imports =
      record {
        dll_name = 0x64 ∷ [];
        functions =
            record {
              name = 0x4F ∷ 0x72 ∷ 0x64 ∷ 0x69 ∷ 0x6E ∷ 0x61 ∷ 0x6C ∷ 0x5F ∷ 0x33 ∷ [];
              ordinal = 3;
              iat_rva = 0x6C;
            }
            ∷ [];
      }
      ∷ [];
  exports = record { rva = 0; size = 0 };
  relocs = record { rva = 0; size = 0 };
  tls = record { rva = 0; size = 0 };
  raw_data = file;
}

load_memory-file : load_memory (λ f. true) file ≡ Outcome.ok (some loaded)
unfolding load_memory load_headers opened_by opened_at optional_at image_at read_le sections_at
    section_at read_bytes directory_at entry_at parse_imports import_loop import_round import_dll
    import_funcs import_func c_string rva_to_ptr
load_memory-file = refl

load_memory-Ends_example : Ends (load_memory (λ f. true) file)
load_memory-Ends_example = load_memory-Ends (λ f. true) file

load_memory-IsAccepted_example : IsAccepted file loaded
load_memory-IsAccepted_example = load_memory-IsAccepted (λ f. true) file loaded load_memory-file

import_found : rva_to_ptr (text_section ∷ []) 0x44 ≡ some 0xF4
unfolding rva_to_ptr
import_found = refl

load_memory-rva_to_ptr_example :
    (i : ℕ) × (s : Section) × (get_elem? (text_section ∷ []) i ≡ some s)
    × IsPlace s 0x44 0xF4
    × (s.raw_offset + s.raw_size < 2 ^ 32 → 0xF4 < length file)
load_memory-rva_to_ptr_example =
    load_memory-rva_to_ptr (λ f. true) file loaded 0x44 0xF4 load_memory-file import_found

-- A section whose end wraps in 32 bits gets bytes far outside the file.
abbrev far_header : List ℕ
far_header = replicate 16 0 ++ word 32 ++ 0xF0 ∷ 0xFF ∷ 0xFF ∷ 0xFF ∷ replicate 16 0

section_at_far :
    section_at far_header 0
    ≡ Outcome.ok (record {
      name = replicate 8 0;
      virtual_size = 0;
      virtual_address = 0;
      raw_size = 32;
      raw_offset = 0xFFFFFFF0;
      characteristics = 0;
      start = some 0xFFFFFFF0;
    })
unfolding section_at read_bytes read_le
section_at_far = refl
