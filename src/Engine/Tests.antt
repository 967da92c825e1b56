-- ===== src/Engine/Tests.antt =====
-- A small image in a new engine.
use wine_glass.Base.{ℕ, ◌≡◌, refl, Bool, true, Option, none, some, [], ◌∷◌, ltb}
use wine_glass.Memory.{
  memory_create, memory_map, aligned_size, read_word, write_word, resolve, find_region, contains,
  load, store,
}
use wine_glass.Memory.Valid.{memory_create-IsMemory}
use wine_glass.X86.State.{state_reset, set_reg}
use wine_glass.X86.State.Flags.{state_reset-IsCpu}
use wine_glass.X86.Interp.{exec_block}
use wine_glass.X86.Interp.Safe.{Outcome, Any}
use wine_glass.Pe.Types.{Section, Directory, Image}
use wine_glass.DllMapper.Types.{mapper_create, thunk_base}
use wine_glass.DllMapper.{register, first_entry, find_stripped}
use wine_glass.DllMapper
use wine_glass.DllMapper.Macros.{codes}
use wine_glass.DllMapper.Thunks.{mapper_create-IsMapper}
use wine_glass.Engine.{
  Engine, raw_bytes, map_sections, patch_functions, patch_imports, start_cpu, load_pe_builtin,
}
use wine_glass.Engine.Load.{IsEngine, AtEntry, load_pe_builtin-exec_block}

-- Two bytes of code, and the slot of one import behind them.
abbrev code : Section
code = record {
  name = codes ".text";
  virtual_size = 16;
  virtual_address = 0x1000;
  raw_size = 2;
  raw_offset = 1;
  characteristics = 0x60000020;
  start = some 1;
}

abbrev nothing : Directory
nothing = record { rva = 0; size = 0 }

abbrev small : Image
small = record {
  image_base = 0x400000;
  entry_point = 0x1000;
  size_of_image = 0x2000;
  size_of_headers = 0;
  subsystem = 2;
  dll_characteristics = 0;
  machine = 0x8664;
  is_64bit = true;
  sections = code ∷ [];
  imports =
      record {
        dll_name = codes "KERNEL32.dll";
        functions = record { name = codes "Sleep"; ordinal = 0; iat_rva = 0x1008 } ∷ [];
      }
      ∷ [];
  exports = nothing;
  relocs = nothing;
  tls = nothing;
  raw_data = 0 ∷ 0x90 ∷ 0xC3 ∷ [];
}

abbrev fresh : Engine
fresh = record {
  machine = record { cpu = state_reset; mem = memory_create 0x1000000 };
  dll_mapper = mapper_create;
}

fresh-IsEngine : IsEngine thunk_base fresh
fresh-IsEngine = record {
  machine_valid = record {
    cpu_valid = state_reset-IsCpu;
    mem_valid = memory_create-IsMemory 0x1000000;
  };
  mapper_valid = mapper_create-IsMapper;
}

-- No room for the stack, which the load does not notice.
abbrev tight : ℕ → Bool
tight n = ltb n 0x10000

abbrev engine_or_fresh : Option (Engine × Bool) → Engine
engine_or_fresh none = fresh
engine_or_fresh (some r) = r.0

abbrev loaded : Engine
loaded = engine_or_fresh (load_pe_builtin tight small fresh)

loads : load_pe_builtin tight small fresh ≡ some (loaded, true)
unfolding load_pe_builtin map_sections memory_map memory_create aligned_size raw_bytes resolve
    find_region contains store patch_imports patch_functions DllMapper.resolve register first_entry
    find_stripped write_word start_cpu set_reg state_reset
loads = refl

-- The import slot holds the address of the thunk.
slot_patched : read_word 8 loaded.machine.mem 0x401008 ≡ some 0xDEAD0000
unfolding load_pe_builtin map_sections memory_map memory_create aligned_size raw_bytes resolve
    find_region contains store patch_imports patch_functions DllMapper.resolve register first_entry
    find_stripped write_word read_word load start_cpu set_reg state_reset
slot_patched = refl

load_pe_builtin-exec_block_example :
    IsEngine thunk_base loaded
    × (true ≡ true → AtEntry small loaded.machine.cpu)
    × Outcome Any (exec_block 2 loaded.machine)
load_pe_builtin-exec_block_example =
    load_pe_builtin-exec_block tight small thunk_base fresh loaded true 2 fresh-IsEngine loads
