-- ===== src/Pe.antt =====
-- The loader of Sources/PE/wg_pe_loader.c, function for function, on the bytes of a file. A pointer
-- into the file is an offset, and NULL is `none`.
pub mod Types
pub mod Imports
pub mod Terminates
pub mod Loaded
pub mod Accepted
pub mod Load
pub mod Rva
mod Tests
use wine_glass.Base.{
  ℕ, zero, suc, ◌+◌, ◌-◌, ◌*◌, ◌/◌, ◌%◌, ◌^◌, [], ◌∷◌, ◌++◌, Bool, true, false, ◌&&◌, ◌||◌, not,
  Option, none, some, List, ltb, leb, ◌==◌, if◌then◌else◌, bit_and, get_elem?, length,
}
use wine_glass.Base.Words.{u16, u32, test_mask}
use wine_glass.Pe.Types.{
  Outcome, ◌>>=◌, Section, ImportFunc, ImportDll, Directory, Image, Optional, pe_max_sections,
  pe_max_imports, pe_max_import_funcs,
}

abbrev pub byte_of : Option ℕ → Outcome ℕ
byte_of none = Outcome.fault
byte_of (some b) = Outcome.ok b

-- `n` bytes at an offset, low byte first.
unfoldable pub read_le : ℕ → List ℕ → ℕ → Outcome ℕ
read_le zero file p = Outcome.ok 0
read_le (suc n) file p = byte_of (get_elem? file p) >>= λ b.
    read_le n file (p + 1) >>= λ rest. Outcome.ok (b + 256 * rest)

abbrev pub contains_rva : Section → ℕ → Bool
contains_rva s rva = leb s.virtual_address rva && ltb rva (u32 (s.virtual_address + s.raw_size))

abbrev pub place : Section → ℕ → Option ℕ
place s rva = elim s.start [
  | none ↦ none
  | some start ↦
      let offset = rva - s.virtual_address in
      if ltb offset s.raw_size then some (start + offset) else none
]

abbrev pub or_else : Option ℕ → Option ℕ → Option ℕ
or_else none other = other
or_else (some p) other = some p

unfoldable pub rva_to_ptr : List Section → ℕ → Option ℕ
rva_to_ptr [] rva = none
rva_to_ptr (s ∷ sections) rva =
    or_else (if contains_rva s rva then place s rva else none) (rva_to_ptr sections rva)

-- `strncpy`: at most `n` bytes, up to a terminator.
unfoldable pub c_string : ℕ → List ℕ → ℕ → Outcome (List ℕ)
c_string zero file p = Outcome.ok []
c_string (suc n) file p = byte_of (get_elem? file p) >>= λ b. elim (b == 0) [
  | true ↦ Outcome.ok []
  | false ↦ c_string n file (p + 1) >>= λ rest. Outcome.ok (b ∷ rest)
]

-- `%u`, of at most `n` digits.
abbrev pub digits : ℕ → ℕ → List ℕ → List ℕ
digits zero v rest = rest
digits (suc n) v rest =
    let more = digits n (v / 10) ((0x30 + v % 10) ∷ rest) in
    if ltb v 10 then (0x30 + v) ∷ rest else more

-- "Ordinal_%u"
abbrev pub ordinal_name : ℕ → List ℕ
ordinal_name n = 0x4F ∷ 0x72 ∷ 0x64 ∷ 0x69 ∷ 0x6E ∷ 0x61 ∷ 0x6C ∷ 0x5F ∷ digits 5 n []

-- Thunks are `w` bytes wide, 8 or 4; the ordinal flag is the top bit.
unfoldable pub import_func : List ℕ → List Section → ℕ → ℕ → ℕ → ℕ → Outcome ImportFunc
import_func file sections w iat_rva k thunk =
    let slot = u32 (iat_rva + u32 (k * w)) in
    let ordinal = u16 (bit_and thunk 0xFFFF) in
    let by_name : Outcome ImportFunc = elim (rva_to_ptr sections (u32 (bit_and thunk 0x7FFFFFFF))) [
      | none ↦ Outcome.ok (record { name = []; ordinal = 0; iat_rva = slot })
      | some hint ↦ read_le 2 file hint >>= λ n. c_string 255 file (hint + 2) >>= λ s.
          Outcome.ok (record { name = s; ordinal = n; iat_rva = slot })
    ] in
    if test_mask thunk (2 ^ (8 * w - 1))
    then Outcome.ok (record { name = ordinal_name ordinal; ordinal = ordinal; iat_rva = slot })
    else by_name

-- `room` functions more can be stored, the next as number `k`.
unfoldable pub import_funcs : List ℕ → List Section → ℕ → ℕ → ℕ → ℕ → ℕ → Outcome (List ImportFunc)
import_funcs file sections w iat_rva zero k p = read_le w file p >>= λ thunk. Outcome.ok []
import_funcs file sections w iat_rva (suc room) k p = read_le w file p >>= λ thunk.
    elim (thunk == 0) [
      | true ↦ Outcome.ok []
      | false ↦ import_func file sections w iat_rva k thunk >>= λ f.
          import_funcs file sections w iat_rva room (k + 1) (p + w) >>= λ rest.
          Outcome.ok (f ∷ rest)
    ]

-- What one round of the loop over descriptors does.
pub data Round : Type 0 where
  stop skip : Round
  add : ImportDll → Round

unfoldable pub import_dll : List ℕ → List Section → ℕ → ℕ → ℕ → Outcome Round
import_dll file sections w desc name = c_string 255 file name >>= λ dll_name.
    read_le 4 file desc >>= λ original. read_le 4 file (desc + 16) >>= λ first.
    elim (rva_to_ptr sections (if not (original == 0) then original else first)) [
      | none ↦ Outcome.ok Round.skip
      | some thunk ↦ import_funcs file sections w first pe_max_import_funcs 0 thunk >>= λ fs.
          Outcome.ok (Round.add (record { dll_name = dll_name; functions = fs }))
    ]

unfoldable pub import_round : List ℕ → List Section → ℕ → ℕ → ℕ → Outcome Round
import_round file sections w desc n = read_le 4 file (desc + 12) >>= λ name.
    let named : Outcome Round = elim (rva_to_ptr sections name) [
      | none ↦ Outcome.ok Round.stop
      | some p ↦ import_dll file sections w desc p
    ] in
    if name == 0 || leb pe_max_imports n then Outcome.ok Round.stop else named

-- Each round moves on by the 20 bytes of a descriptor.
unfoldable pub import_loop :
    ℕ → List ℕ → List Section → ℕ → ℕ → ℕ → List ImportDll → Outcome (List ImportDll)
import_loop zero file sections w desc n dlls = Outcome.out_of_fuel
import_loop (suc fuel) file sections w desc n dlls = import_round file sections w desc n >>= λ r.
    elim r [
      | Round.stop ↦ Outcome.ok dlls
      | Round.skip ↦ import_loop fuel file sections w (desc + 20) n dlls
      | Round.add d ↦ import_loop fuel file sections w (desc + 20) (n + 1) (dlls ++ d ∷ [])
    ]

unfoldable pub parse_imports : List ℕ → List Section → Bool → Directory → Outcome (List ImportDll)
parse_imports file sections is_64bit dir =
    let found : Outcome (List ImportDll) = elim (rva_to_ptr sections dir.rva) [
      | none ↦ Outcome.ok []
      | some p ↦ import_loop (suc (length file)) file sections (if is_64bit then 8 else 4) p 0 []
    ] in
    if dir.rva == 0 || dir.size == 0 then Outcome.ok [] else found

unfoldable pub read_bytes : ℕ → List ℕ → ℕ → Outcome (List ℕ)
read_bytes zero file p = Outcome.ok []
read_bytes (suc n) file p =
    byte_of (get_elem? file p) >>= λ b. read_bytes n file (p + 1) >>= λ rest. Outcome.ok (b ∷ rest)

-- `PointerToRawData + SizeOfRawData <= size`, in 32 bits on the left.
abbrev pub raw_start : List ℕ → ℕ → ℕ → Option ℕ
raw_start file offset size =
    if ltb 0 offset && ltb 0 size && leb (u32 (offset + size)) (length file)
    then some offset
    else none

unfoldable pub section_at : List ℕ → ℕ → Outcome Section
section_at file p = do
  name ← read_bytes 8 file p
  virtual_size ← read_le 4 file (p + 8)
  virtual_address ← read_le 4 file (p + 12)
  raw_size ← read_le 4 file (p + 16)
  raw_offset ← read_le 4 file (p + 20)
  characteristics ← read_le 4 file (p + 36)
  Outcome.ok (record {
    name = name;
    virtual_size = virtual_size;
    virtual_address = virtual_address;
    raw_size = raw_size;
    raw_offset = raw_offset;
    characteristics = characteristics;
    start = raw_start file raw_offset raw_size;
  })

unfoldable pub sections_at : List ℕ → ℕ → ℕ → Outcome (List Section)
sections_at file zero p = Outcome.ok []
sections_at file (suc n) p =
    section_at file p >>= λ s. sections_at file n (p + 40) >>= λ rest. Outcome.ok (s ∷ rest)

-- The optional headers of both formats; they differ in ImageBase, the last fields and the size.
unfoldable pub optional_at : List ℕ → ℕ → Bool → Outcome Optional
optional_at file p is_64bit = do
  entry_point ← read_le 4 file (p + 16)
  image_base ← if is_64bit then read_le 8 file (p + 24) else read_le 4 file (p + 28)
  size_of_image ← read_le 4 file (p + 56)
  size_of_headers ← read_le 4 file (p + 60)
  subsystem ← read_le 2 file (p + 68)
  dll_characteristics ← read_le 2 file (p + 70)
  num_directories ← read_le 4 file (if is_64bit then p + 108 else p + 92)
  Outcome.ok (record {
    is_64bit = is_64bit;
    entry_point = entry_point;
    image_base = image_base;
    size_of_image = size_of_image;
    size_of_headers = size_of_headers;
    subsystem = subsystem;
    dll_characteristics = dll_characteristics;
    num_directories = num_directories;
    directories = if is_64bit then p + 112 else p + 96;
  })

abbrev pub no_directory : Directory
no_directory = record { rva = 0; size = 0 }

unfoldable pub entry_at : List ℕ → ℕ → Outcome Directory
entry_at file p = do
  rva ← read_le 4 file p
  size ← read_le 4 file (p + 4)
  Outcome.ok (record { rva = rva; size = size })

-- Directory `k`, where there are more than `k`.
unfoldable pub directory_at : List ℕ → Optional → ℕ → Outcome Directory
directory_at file opt k =
    if ltb k opt.num_directories
    then entry_at file (opt.directories + 8 * k)
    else Outcome.ok no_directory

abbrev pub section_count : ℕ → ℕ
section_count count = if ltb pe_max_sections count then pe_max_sections else count

unfoldable pub image_at : List ℕ → ℕ → ℕ → ℕ → Optional → Outcome Image
image_at file coff machine count opt = do
  opt_size ← read_le 2 file (coff + 16)
  sections ← sections_at file (section_count count) (coff + 20 + opt_size)
  import_dir ← directory_at file opt 1
  imports ← parse_imports file sections opt.is_64bit import_dir
  exports ← directory_at file opt 0
  relocs ← directory_at file opt 5
  tls ← directory_at file opt 9
  Outcome.ok (record {
    image_base = opt.image_base;
    entry_point = opt.entry_point;
    size_of_image = opt.size_of_image;
    size_of_headers = opt.size_of_headers;
    subsystem = opt.subsystem;
    dll_characteristics = opt.dll_characteristics;
    machine = machine;
    is_64bit = opt.is_64bit;
    sections = sections;
    imports = imports;
    exports = exports;
    relocs = relocs;
    tls = tls;
    raw_data = file;
  })

unfoldable pub opened_at : List ℕ → ℕ → ℕ → ℕ → Bool → Outcome (Option Image)
opened_at file coff machine count is_64bit = optional_at file (coff + 20) is_64bit >>= λ opt.
    image_at file coff machine count opt >>= λ img. Outcome.ok (some img)

unfoldable pub opened_by : List ℕ → ℕ → ℕ → ℕ → ℕ → Outcome (Option Image)
opened_by file coff machine count magic =
    if magic == 0x20B
    then opened_at file coff machine count true
    else if magic == 0x10B
    then opened_at file coff machine count false
    else Outcome.ok none

-- The headers behind the signature; `alloc` says whether the image and its bytes find room.
unfoldable pub load_headers : (List ℕ → Bool) → List ℕ → ℕ → Outcome (Option Image)
load_headers alloc file coff = read_le 2 file coff >>= λ machine.
    read_le 2 file (coff + 2) >>= λ count.
    let opened = read_le 2 file (coff + 20) >>= opened_by file coff machine count in
    if alloc file then opened else Outcome.ok none

-- NULL is `none`.
unfoldable pub load_memory : (List ℕ → Bool) → List ℕ → Outcome (Option Image)
load_memory alloc file =
    let with_offset = read_le 4 file 60 >>= λ pe_offset.
    let signed = read_le 4 file pe_offset >>= λ sig.
    if not (sig == 0x4550) then Outcome.ok none else load_headers alloc file (pe_offset + 4) in
    if ltb (length file) (u32 (pe_offset + 4)) then Outcome.ok none else signed in
    let with_magic = read_le 2 file 0 >>= λ magic.
    if not (magic == 0x5A4D) then Outcome.ok none else with_offset in
    if ltb (length file) 64 then Outcome.ok none else with_magic

-- `fopen` gives the bytes of the file, `fread` the count that it reads of them.
unfoldable pub load_file :
    {P : Type 0}
    → (P → Option (List ℕ))
    → (List ℕ → ℕ)
    → (ℕ → Bool)
    → (List ℕ → Bool)
    → P
    → Outcome (Option Image)
load_file fopen fread malloc alloc path = elim (fopen path) [
  | none ↦ Outcome.ok none
  | some file ↦
      let n = length file in
      if n == 0 || ltb (512 * 1024 * 1024) n
      then Outcome.ok none
      else if not (malloc n)
      then Outcome.ok none
      else if not (fread file == n)
      then Outcome.ok none
      else load_memory alloc file
]
