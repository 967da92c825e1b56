-- ===== src/Pe/Types.antt =====
-- The data of Sources/PE/wg_pe_loader.h, and what a run of the loader can end in.
use wine_glass.Base.{ℕ, Bool, Option, List}

-- A read outside the file is a fault.
pub data Outcome {ℓ} (A : Type ℓ) : Type ℓ where
  ok : A → Outcome A
  fault : Outcome A
  out_of_fuel : Outcome A

infixl 5 ◌>>=◌
abbrev pub ◌>>=◌ {ℓ κ} : {A : Type ℓ} {B : Type κ} → Outcome A → (A → Outcome B) → Outcome B
Outcome.ok a >>= f = f a
Outcome.fault >>= f = Outcome.fault
Outcome.out_of_fuel >>= f = Outcome.out_of_fuel

-- `start` is the pointer `data`, an offset into the file's bytes.
pub record Section : Type 0 where
  pub name : List ℕ
  pub virtual_size : ℕ
  pub virtual_address : ℕ
  pub raw_size : ℕ
  pub raw_offset : ℕ
  pub characteristics : ℕ
  pub start : Option ℕ

-- A name is its bytes before the terminator.
pub record ImportFunc : Type 0 where
  pub name : List ℕ
  pub ordinal : ℕ
  pub iat_rva : ℕ

pub record ImportDll : Type 0 where
  pub dll_name : List ℕ
  pub functions : List ImportFunc

-- The place and size of a directory.
pub record Directory : Type 0 where
  pub rva : ℕ
  pub size : ℕ

pub record Image : Type 0 where
  pub image_base : ℕ
  pub entry_point : ℕ
  pub size_of_image : ℕ
  pub size_of_headers : ℕ
  pub subsystem : ℕ
  pub dll_characteristics : ℕ
  pub machine : ℕ
  pub is_64bit : Bool
  pub sections : List Section
  pub imports : List ImportDll
  pub exports : Directory
  pub relocs : Directory
  pub tls : Directory
  pub raw_data : List ℕ

abbrev pub pe_max_sections : ℕ
pe_max_sections = 96

abbrev pub pe_max_imports : ℕ
pe_max_imports = 256

abbrev pub pe_max_import_funcs : ℕ
pe_max_import_funcs = 4096

-- The fields of the optional header that are read, and where the directories stand.
pub record Optional : Type 0 where
  pub is_64bit : Bool
  pub entry_point : ℕ
  pub image_base : ℕ
  pub size_of_image : ℕ
  pub size_of_headers : ℕ
  pub subsystem : ℕ
  pub dll_characteristics : ℕ
  pub num_directories : ℕ
  pub directories : ℕ
