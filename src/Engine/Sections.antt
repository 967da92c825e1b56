-- ===== src/Engine/Sections.antt =====
-- The memory that `load_pe_builtin` of Sources/Core/wg_engine.c fills stays well formed.
use wine_glass.Base.{
  ℕ, ◌+◌, List, [], ◌∷◌, Bool, Option, none, some, Option-cases, inl, inr, ltb, drop, arith,
}
use wine_glass.Base.Words.{u64}
use wine_glass.Memory.{Memory, resolve, store, put_bytes, memory_write, memory_map}
use wine_glass.Memory.Access.{resolve-found}
use wine_glass.Memory.Valid.{IsMemory, found-IsRegion, put_bytes-IsMemory, memory_map-IsMemory}
use wine_glass.Pe.Types.{Section, Image}
use wine_glass.Engine.{raw_bytes, copy_size, copy_data, map_section, map_sections, prot_of}
use wine_glass.Engine.Holds.{Holds, Holds-some, Holds-bind, Holds-if}

memory_write-IsMemory :
    (mem : Memory) (addr : ℕ) (bs : List ℕ)
    → IsMemory mem
    → Holds (λ r. IsMemory r.0) (memory_write mem addr bs)
memory_write-IsMemory mem addr [] v = Holds-some _ v
memory_write-IsMemory mem addr (b ∷ bs) v = elim (Option-cases (resolve mem addr)) [
  | inl e ↦ rw (e, memory_write) (Holds-some _ v)
  | inr ((i, r, off), e) ↦
      let region = found-IsRegion mem addr i r v (resolve-found mem addr i off r e).0 in
      rw (e, memory_write)
        (Holds-bind (store 1 r.bytes off b) _ (record { at = λ bytes f. f })
          λ bytes f.
            memory_write-IsMemory (put_bytes mem i r bytes) (u64 (addr + 1)) bs
              (put_bytes-IsMemory 1 mem i off b r v region f))
]

copy_data-IsMemory :
    (file : List ℕ) (base : ℕ) (s : Section) (mem : Memory) (start : Option ℕ)
    → IsMemory mem
    → Holds IsMemory (copy_data file base s mem start)
copy_data-IsMemory file base s mem none v = Holds-some _ v
copy_data-IsMemory file base s mem (some start) v =
    Holds-if (ltb 0 s.raw_size) _ _
      (Holds-bind {Q = λ bytes. Unit} (raw_bytes (copy_size s) (drop start file)) _
        (record { at = λ bytes e. tt })
        λ bytes t.
          Holds-bind (memory_write mem base bytes) _ (memory_write-IsMemory mem base bytes v)
            λ r h. Holds-some _ h)
      (Holds-some _ v)

map_section-IsMemory :
    (alloc : ℕ → Bool) (pe : Image) (mem : Memory) (s : Section)
    → IsMemory mem
    → Holds (λ r. IsMemory r.0) (map_section alloc pe mem s)
map_section-IsMemory alloc pe mem s v =
    let base = u64 (pe.image_base + s.virtual_address) in
    let r = memory_map alloc mem base s.virtual_size (prot_of s) in
    let mapped = memory_map-IsMemory alloc mem base s.virtual_size (prot_of s) (omega arith) v in
    Holds-if r.1 _ _
      (Holds-bind (copy_data pe.raw_data base s r.0 s.start) _
        (copy_data-IsMemory pe.raw_data base s r.0 s.start mapped) λ mem' h. Holds-some _ h)
      (Holds-some _ mapped)

pub map_sections-IsMemory :
    (alloc : ℕ → Bool) (pe : Image) (sections : List Section) (mem : Memory)
    → IsMemory mem
    → Holds (λ r. IsMemory r.0) (map_sections alloc pe sections mem)
unfolding map_sections
map_sections-IsMemory alloc pe [] mem v = Holds-some _ v
map_sections-IsMemory alloc pe (s ∷ sections) mem v =
    Holds-bind (map_section alloc pe mem s) _ (map_section-IsMemory alloc pe mem s v)
      λ r h. Holds-if r.1 _ _ (map_sections-IsMemory alloc pe sections r.0 h) (Holds-some _ h)
