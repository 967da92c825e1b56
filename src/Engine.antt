-- ===== src/Engine.antt =====
-- `load_pe_builtin` of Sources/Core/wg_engine.c, which puts an image that Pe parsed into the guest's
-- memory, points its import table at the thunks of DllMapper and starts the processor of X86 there.
pub mod Holds
pub mod Sections
pub mod Load
mod Tests
use wine_glass.Base.{
  ℕ, zero, suc, ◌+◌, ◌-◌, ◌^◌, [], ◌∷◌, Bool, true, false, ◌&&◌, Option, none, some, List, ltb,
  ◌==◌, if◌then◌else◌, bit_and, bit_or, drop,
}
use wine_glass.Base.Words.{u64, test_mask}
use wine_glass.Base.Fault.{◌>>=◌}
use wine_glass.Memory.{Memory, memory_map, memory_write, memory_write_u64}
use wine_glass.X86.State.{Cpu, set_rip, set_reg, reg_rsp, reg_rbp}
use wine_glass.X86.Interp.Operands.{Machine}
use wine_glass.Pe.Types.{Section, ImportFunc, ImportDll, Image}
use wine_glass.DllMapper.Types.{Mapper}
use wine_glass.DllMapper.{resolve}

-- The fields of `WGEngine` that `load_pe_builtin` uses besides the image: `cpu` and `memory`, and
-- `dll_mapper`.
pub record Engine : Type 0 where
  pub machine : Machine
  pub dll_mapper : Mapper

abbrev pub mem_read : ℕ
mem_read = 1

abbrev pub mem_write : ℕ
mem_write = 2

abbrev pub mem_exec : ℕ
mem_exec = 4

abbrev pub prot_of : Section → ℕ
prot_of s =
    bit_or (bit_or mem_read (if test_mask s.characteristics 0x20000000 then mem_exec else 0))
      (if test_mask s.characteristics 0x80000000 then mem_write else 0)

-- `n` bytes that a pointer reads; behind the file is a fault.
unfoldable pub raw_bytes : ℕ → List ℕ → Option (List ℕ)
raw_bytes zero xs = some []
raw_bytes (suc n) [] = none
raw_bytes (suc n) (x ∷ xs) = raw_bytes n xs >>= λ bytes. some (x ∷ bytes)

abbrev pub copy_size : Section → ℕ
copy_size s = if ltb s.raw_size s.virtual_size then s.raw_size else s.virtual_size

-- The bytes that a section has in the file, if it has any.
abbrev pub copy_data : List ℕ → ℕ → Section → Memory → Option ℕ → Option Memory
copy_data file base s mem none = some mem
copy_data file base s mem (some start) =
    let written = raw_bytes (copy_size s) (drop start file) >>= λ bytes.
    memory_write mem base bytes >>= λ r. some r.0 in
    if ltb 0 s.raw_size then written else some mem

abbrev pub map_section : (ℕ → Bool) → Image → Memory → Section → Option (Memory × Bool)
map_section alloc pe mem s =
    let base = u64 (pe.image_base + s.virtual_address) in
    let r = memory_map alloc mem base s.virtual_size (prot_of s) in
    let copied = copy_data pe.raw_data base s r.0 s.start >>= λ mem'. some (mem', true) in
    if r.1 then copied else some r

unfoldable pub map_sections : (ℕ → Bool) → Image → List Section → Memory → Option (Memory × Bool)
map_sections alloc pe [] mem = some (mem, true)
map_sections alloc pe (s ∷ sections) mem = map_section alloc pe mem s >>= λ r.
    let rest = map_sections alloc pe sections r.0 in if r.1 then rest else some r

abbrev pub patch : Image → ImportFunc → Memory → Mapper × ℕ → Option (Memory × Mapper)
patch pe f mem r =
    let written =
      memory_write_u64 mem (u64 (pe.image_base + f.iat_rva)) r.1 >>= λ mem'. some (mem', r.0) in
    if r.1 == 0 then some (mem, r.0) else written

unfoldable pub patch_functions :
    Image → List ℕ → List ImportFunc → Memory → Mapper → Option (Memory × Mapper)
patch_functions pe dll [] mem m = some (mem, m)
patch_functions pe dll (f ∷ functions) mem m =
    resolve m dll f.name >>= patch pe f mem >>= λ r. patch_functions pe dll functions r.0 r.1

unfoldable pub patch_imports : Image → List ImportDll → Memory → Mapper → Option (Memory × Mapper)
patch_imports pe [] mem m = some (mem, m)
patch_imports pe (d ∷ imports) mem m =
    patch_functions pe d.dll_name d.functions mem m >>= λ r. patch_imports pe imports r.0 r.1

abbrev pub stack_base : ℕ
stack_base = 0x7FFE0000

unfoldable pub start_cpu : Image → Cpu → Cpu
start_cpu pe cpu =
    set_reg
      (set_reg (set_rip cpu (u64 (pe.image_base + pe.entry_point))) reg_rsp (stack_base - 0x100))
      reg_rbp (stack_base - 0x100)

-- What `wg_memory_map` says of the stack is not looked at.
abbrev pub start : (ℕ → Bool) → Image → Cpu → Memory × Mapper → Engine
start alloc pe cpu r = record {
  machine = record {
    cpu = start_cpu pe cpu;
    mem = (memory_map alloc r.0 (stack_base - 0x100000) 0x100000 (bit_or mem_read mem_write)).0;
  };
  dll_mapper = r.1;
}

unfoldable pub load_pe_builtin : (ℕ → Bool) → Image → Engine → Option (Engine × Bool)
load_pe_builtin alloc pe e = map_sections alloc pe pe.sections e.machine.mem >>= λ r.
    let started = patch_imports pe pe.imports r.0 e.dll_mapper >>= λ r.
    some (start alloc pe e.machine.cpu r, true) in
    if r.1 then started else some (record e { machine = record e.machine { mem = r.0 } }, false)
