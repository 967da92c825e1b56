-- ===== src/Engine/Load.antt =====
-- `load_pe_builtin` of Sources/Core/wg_engine.c leaves an engine that can run.
use wine_glass.Base.{
  ℕ, ◌+◌, ◌-◌, ◌^◌, ◌<◌, ◌≡◌, refl, ap, ◌∙◌, List, [], ◌∷◌, Bool, true, some, lt→ltb, ◌==◌, arith,
  length-set, get_elem?-set_self, get_elem?-set_ne, set, All-set,
}
use wine_glass.Base.Words.{u64}
use wine_glass.Base.Fault.{◌>>=◌}
use wine_glass.Memory.{Memory, memory_write_u64}
use wine_glass.Memory.Valid.{IsMemory, write_word-IsMemory, memory_map-IsMemory}
use wine_glass.X86.State.{Cpu, IsCpu, IsU64, set_rip, set_reg, get_reg, or_zero, reg_rsp, reg_rbp}
use wine_glass.X86.Interp.{exec_block}
use wine_glass.X86.Interp.Safe.{IsMachine, Outcome, Any}
use wine_glass.X86.Interp.Safe.Whole.{set_rip-IsCpu, exec_block-IsMachine}
use wine_glass.Pe.Types.{ImportFunc, ImportDll, Image}
use wine_glass.DllMapper.Types.{Mapper}
use wine_glass.DllMapper.{resolve}
use wine_glass.DllMapper.Thunks.{IsMapper, resolve-IsMapper}
use wine_glass.Engine.{
  Engine, patch, patch_functions, patch_imports, stack_base, start_cpu, map_sections,
  load_pe_builtin,
}
use wine_glass.Engine.Holds.{Holds, Holds-some, Holds-bind, Holds-if}
use wine_glass.Engine.Sections.{map_sections-IsMemory}

pub record IsEngine (b : ℕ) (e : Engine) : Type 0 where
  pub machine_valid : IsMachine e.machine
  pub mapper_valid : IsMapper b e.dll_mapper

abbrev IsPatched : ℕ → Memory × Mapper → Type 0
IsPatched b r = IsMemory r.0 × IsMapper b r.1

patch-IsPatched :
    (b : ℕ) (pe : Image) (f : ImportFunc) (mem : Memory) (r : Mapper × ℕ)
    → IsMemory mem
    → IsMapper b r.0
    → Holds (IsPatched b) (patch pe f mem r)
patch-IsPatched b pe f mem r v w =
    let at = u64 (pe.image_base + f.iat_rva) in
    Holds-if (r.1 == 0) _ _ (Holds-some _ (v, w)) (
      Holds-bind {Q = IsMemory} (memory_write_u64 mem at r.1) _
        (record { at = λ m e. write_word-IsMemory 8 mem at r.1 v e }) λ m h. Holds-some _ (h, w))

patch_functions-IsPatched :
    (b : ℕ) (pe : Image) (dll : List ℕ) (functions : List ImportFunc) (mem : Memory) (m : Mapper)
    → IsMemory mem
    → IsMapper b m
    → Holds (IsPatched b) (patch_functions pe dll functions mem m)
unfolding patch_functions
patch_functions-IsPatched b pe dll [] mem m v w = Holds-some _ (v, w)
patch_functions-IsPatched b pe dll (f ∷ functions) mem m v w =
    Holds-bind (resolve m dll f.name >>= patch pe f mem) _
      (Holds-bind {Q = λ r. IsMapper b r.0} (resolve m dll f.name) _
        (record { at = λ r e. resolve-IsMapper b m r.0 dll f.name r.1 w e })
        λ r h. patch-IsPatched b pe f mem r v h)
      λ r h. patch_functions-IsPatched b pe dll functions r.0 r.1 h.0 h.1

patch_imports-IsPatched :
    (b : ℕ) (pe : Image) (imports : List ImportDll) (mem : Memory) (m : Mapper)
    → IsMemory mem
    → IsMapper b m
    → Holds (IsPatched b) (patch_imports pe imports mem m)
unfolding patch_imports
patch_imports-IsPatched b pe [] mem m v w = Holds-some _ (v, w)
patch_imports-IsPatched b pe (d ∷ imports) mem m v w =
    Holds-bind (patch_functions pe d.dll_name d.functions mem m) _
      (patch_functions-IsPatched b pe d.dll_name d.functions mem m v w)
      λ r h. patch_imports-IsPatched b pe imports r.0 r.1 h.0 h.1

set_reg-IsCpu : (cpu : Cpu) (r v : ℕ) → IsCpu cpu → r < 16 → v < 2 ^ 64 → IsCpu (set_reg cpu r v)
unfolding set_reg
set_reg-IsCpu cpu r v h l fits = rw (lt→ltb r 16 l) (record {
  gprs = length-set cpu.gpr r v ∙ h.gprs;
  gpr_fits = All-set IsU64 cpu.gpr r v h.gpr_fits fits;
  rip_fits = h.rip_fits;
  rflags_fits = h.rflags_fits;
  xmms = h.xmms;
  xmm_fits = h.xmm_fits;
})

start_cpu-IsCpu : (pe : Image) (cpu : Cpu) → IsCpu cpu → IsCpu (start_cpu pe cpu)
unfolding start_cpu
start_cpu-IsCpu pe cpu h =
    let entry = u64 (pe.image_base + pe.entry_point) in
    let top = stack_base - 0x100 in
    set_reg-IsCpu (set_reg (set_rip cpu entry) reg_rsp top) reg_rbp top
      (set_reg-IsCpu (set_rip cpu entry) reg_rsp top (set_rip-IsCpu cpu entry h (omega arith))
        (omega arith) (omega arith))
      (omega arith) (omega arith)

-- The processor stands at the entry point, with the stack pointer below the top of the stack.
pub record AtEntry (pe : Image) (cpu : Cpu) : Type 0 where
  pub at_entry : cpu.rip ≡ u64 (pe.image_base + pe.entry_point)
  pub stack : get_reg cpu reg_rsp ≡ 0x7FFDFF00

start_cpu-AtEntry : (pe : Image) (cpu : Cpu) → IsCpu cpu → AtEntry pe (start_cpu pe cpu)
unfolding start_cpu set_reg get_reg
start_cpu-AtEntry pe cpu h =
    let top = stack_base - 0x100 in
    record {
      at_entry = refl;
      stack = ap or_zero (
          get_elem?-set_ne (set cpu.gpr 4 top) 5 4 top (λ e. omega (arith, e))
          ∙ get_elem?-set_self cpu.gpr 4 top (omega (arith, h.gprs)));
    }

abbrev IsLoaded : ℕ → Image → Engine × Bool → Type 0
IsLoaded b pe r = IsEngine b r.0 × (r.1 ≡ true → AtEntry pe r.0.machine.cpu)

load_pe_builtin-IsLoaded :
    (alloc : ℕ → Bool) (pe : Image) (b : ℕ) (e : Engine)
    → IsEngine b e
    → Holds (IsLoaded b pe) (load_pe_builtin alloc pe e)
unfolding load_pe_builtin
load_pe_builtin-IsLoaded alloc pe b e v =
    let cpu_valid = v.machine_valid.cpu_valid in
    Holds-bind (map_sections alloc pe pe.sections e.machine.mem) _
      (map_sections-IsMemory alloc pe pe.sections e.machine.mem v.machine_valid.mem_valid)
      λ r h.
        Holds-if r.1 _ _
          (Holds-bind (patch_imports pe pe.imports r.0 e.dll_mapper) _
            (patch_imports-IsPatched b pe pe.imports r.0 e.dll_mapper h v.mapper_valid)
            λ q k. Holds-some _ (
              record {
                machine_valid = record {
                  cpu_valid = start_cpu-IsCpu pe e.machine.cpu cpu_valid;
                  mem_valid =
                      memory_map-IsMemory alloc q.0 (stack_base - 0x100000) 0x100000 3 (omega arith)
                        k.0;
                };
                mapper_valid = k.1;
              },
              λ ok. start_cpu-AtEntry pe e.machine.cpu cpu_valid,
            ))
          (Holds-some _ (
            record {
              machine_valid = record { cpu_valid = cpu_valid; mem_valid = h };
              mapper_valid = v.mapper_valid;
            },
            λ ok. absurd cc,
          ))

-- From a valid engine, whatever the image says, a load that makes no access outside a buffer leaves a
-- valid engine: after a success the processor stands at the entry point with the stack pointer below
-- the top of the stack, and any number of instructions from there ends in a valid machine or in a
-- fault that is never an index past a register file.
pub load_pe_builtin-exec_block :
    (alloc : ℕ → Bool) (pe : Image) (b : ℕ) (e e' : Engine) (ok : Bool) (max_insns : ℕ)
    → IsEngine b e
    → load_pe_builtin alloc pe e ≡ some (e', ok)
    → IsEngine b e'
      × (ok ≡ true → AtEntry pe e'.machine.cpu)
      × Outcome Any (exec_block max_insns e'.machine)
load_pe_builtin-exec_block alloc pe b e e' ok max_insns v loads =
    let (valid, entered) = (load_pe_builtin-IsLoaded alloc pe b e v).at (e', ok) loads in
    (valid, entered, exec_block-IsMachine max_insns e'.machine valid.machine_valid)
