-- ===== src/Memory/Tests.antt =====
-- The memory on a small address space: two mapped regions, words in them and apart from them.
use wine_glass.Base.{
  ℕ, ◌+◌, ◌<◌, ◌≤◌, ◌^◌, ◌%◌, ◌≡◌, ◌≢◌, ◌⊎◌, get_elem?, inr, ◌↔◌, refl, true, false, none, some,
  arith, [], ◌∷◌, replicate, if◌then◌else◌, ◌==◌,
}
use mathlib.Core.List.{Perm}
use wine_glass.Memory.{
  Region, Memory, memory_create, contains, find_region, aligned_size, memory_map, memory_unmap,
  resolve, load, store, read_word, write_word, put_bytes, memory_read, memory_write,
}
use wine_glass.Memory.Access.{read_word-write_word, read_word-elsewhere}
use wine_glass.Memory.Valid.{
  IsMemory, aligned_size_least, memory_map-IsMemory, memory_create-IsMemory,
}
use wine_glass.Memory.Ranges.{memory_read-memory_write}
use wine_glass.Memory.Mapping.{memory_unmap_removes, read_word-straddling}

abbrev small : Region
small = record { base = 0x1000; size = 8; prot = 3; bytes = replicate 8 0 }

abbrev other : Region
other = record { base = 0x2000; size = 4; prot = 1; bytes = 1 ∷ 2 ∷ 3 ∷ 4 ∷ [] }

abbrev two : Memory
two = record { regions = small ∷ other ∷ []; total_size = 0 }

abbrev written : Memory
written = put_bytes two 0 small (0 ∷ 0 ∷ 0xEF ∷ 0xBE ∷ 0xAD ∷ 0xDE ∷ 0 ∷ 0 ∷ [])

resolve_at : resolve two 0x1002 ≡ some (0, small, 2)
unfolding resolve find_region contains
resolve_at = refl

write_at : write_word 4 two 0x1002 0xDEADBEEF ≡ some written
unfolding write_word resolve find_region contains store
write_at = refl

read_word-write_word_example : read_word 4 written 0x1002 ≡ some (0xDEADBEEF % 256 ^ 4)
read_word-write_word_example =
    read_word-write_word 4 two 0x1002 0xDEADBEEF (0, small, 2) resolve_at write_at

read_word-elsewhere_example : read_word 2 written 0x1006 ≡ read_word 2 two 0x1006
read_word-elsewhere_example =
    read_word-elsewhere 4 2 two 0x1002 0x1006 0xDEADBEEF write_at (inr (omega arith))

memory_unmap_removes_example :
    (((i : ℕ) (r : Region) → get_elem? two.regions i ≡ some r → r.base ≢ 0x1000)
      × (memory_unmap two 0x1000 ≡ (two, false)))
    ⊎ ((r : Region) × (r.base ≡ 0x1000)
        × ((memory_unmap two 0x1000).1 ≡ true)
        × Perm two.regions (r ∷ (memory_unmap two 0x1000).0.regions))
memory_unmap_removes_example = memory_unmap_removes two 0x1000

-- A page at 0x10000, as `wg_memory_map` makes it.
abbrev page : Memory
page = (memory_map (λ n. true) (memory_create 0) 0x10000 100 3).0

page-IsMemory : IsMemory page
page-IsMemory =
    memory_map-IsMemory (λ n. true) (memory_create 0) 0x10000 100 3 (omega arith)
      (memory_create-IsMemory 0)

memory_map-IsMemory_example : IsMemory (memory_map (λ n. true) page 0x20000 5000 1).0
memory_map-IsMemory_example =
    memory_map-IsMemory (λ n. true) page 0x20000 5000 1 (omega arith) page-IsMemory

abbrev page_slot : Region
page_slot = record { base = 0x10000; size = 4096; prot = 3; bytes = replicate 4096 0 }

page_found : find_region page.regions 0x10FFE ≡ some (0, page_slot)
unfolding memory_map memory_create aligned_size find_region contains
page_found = refl

read_word-straddling_example :
    (read_word 4 page 0x10FFE ≡ none) ↔ (page_slot.base + page_slot.size < 0x10FFE + 4)
read_word-straddling_example =
    read_word-straddling 4 page 0x10FFE 0 page_slot page-IsMemory page_found

aligned_size_least_example :
    (4097 ≤ aligned_size 4097)
    × (0 < aligned_size 4097)
    × (aligned_size 4097 % 4096 ≡ 0)
    × (aligned_size 4097 < 4097 + 4096 + (if 4097 == 0 then 1 else 0))
aligned_size_least_example = aligned_size_least 4097 (omega arith)

abbrev page_written : Memory
page_written = put_bytes page 0 page_slot (0xAB ∷ 0xCD ∷ replicate 4094 0)

page_write : write_word 2 page 0x10000 0xCDAB ≡ some page_written
unfolding memory_map memory_create aligned_size write_word resolve find_region contains store
page_write = refl

page_read : read_word 1 page 0x10001 ≡ some 0
unfolding memory_map memory_create aligned_size read_word resolve find_region contains load
page_read = refl

-- Nothing is mapped behind the first region's end, so a read there gives 0.
read_gap : read_word 4 two 0x1008 ≡ some 0
unfolding read_word resolve find_region contains
read_gap = refl

read_other : read_word 4 two 0x2000 ≡ some 0x04030201
unfolding read_word resolve find_region contains load
read_other = refl

abbrev three_written : Memory
three_written = put_bytes two 0 small (0 ∷ 0 ∷ 7 ∷ 8 ∷ 9 ∷ 0 ∷ 0 ∷ 0 ∷ [])

write_three : memory_write two 0x1002 (7 ∷ 8 ∷ 9 ∷ []) ≡ some (three_written, true)
unfolding resolve find_region contains store
write_three = refl

memory_read-memory_write_example : memory_read three_written 0x1002 3 ≡ some (true, 7 ∷ 8 ∷ 9 ∷ [])
memory_read-memory_write_example =
    memory_read-memory_write (7 ∷ 8 ∷ 9 ∷ []) two 0x1002
      (omega arith, (omega arith, (omega arith, tt))) (omega arith) write_three
