-- ===== src/Memory.antt =====
-- Sources/Memory/wg_memory.h and wg_memory.c: the guest's address space, a table of regions.
-- The list holds the `num_regions` slots that are in use. A pointer into a region's buffer is the
-- slot's index with an offset; a read or write past the buffer's end is a fault (`none`), since C
-- leaves it undefined. The host is little-endian, so `memcpy` of a word copies its low byte first.
pub mod Words
pub mod Slots
pub mod Access
pub mod Valid
pub mod Mapping
pub mod Total
pub mod Ranges
mod Tests
use wine_glass.Base.{
  ℕ, zero, suc, ◌+◌, ◌-◌, ◌*◌, ◌/◌, ◌%◌, Bool, true, false, ◌&&◌, ◌==◌, ltb, leb, if◌then◌else◌,
  Option, none, some, List, [], ◌∷◌, ◌++◌, length, get_elem?, set, replicate,
}
use wine_glass.Base.Words.{u64}
use wine_glass.Base.Fault.{◌>>=◌}

pub record Region : Type 0 where
  pub base : ℕ
  pub size : ℕ
  pub prot : ℕ
  pub bytes : List ℕ

pub record Memory : Type 0 where
  pub regions : List Region
  pub total_size : ℕ

abbrev pub page_size : ℕ
page_size = 4096

abbrev pub max_regions : ℕ
max_regions = 1024

unfoldable pub memory_create : ℕ → Memory
memory_create max_size = record { regions = []; total_size = max_size }

-- `addr >= r->base && addr < r->base + r->size`, where the sum wraps.
unfoldable pub contains : Region → ℕ → Bool
contains r addr = leb r.base addr && ltb addr (u64 (r.base + r.size))

abbrev pub later_slot {ℓ} : {A : Type ℓ} → Option (ℕ × A) → Option (ℕ × A)
later_slot none = none
later_slot (some (i, r)) = some (suc i, r)

-- The first slot that holds the address.
unfoldable pub find_region : List Region → ℕ → Option (ℕ × Region)
find_region [] addr = none
find_region (r ∷ rs) addr =
    if contains r addr then some (0, r) else later_slot (find_region rs addr)

-- `(size + 4095) & ~4095` in 64 bits, and one page where that is 0.
abbrev pub round_up : ℕ → ℕ
round_up size = u64 (size + page_size - 1) / page_size * page_size

unfoldable pub aligned_size : ℕ → ℕ
aligned_size size = if round_up size == 0 then page_size else round_up size

-- `alloc n` says whether `calloc` has `n` bytes to give.
unfoldable pub memory_map : (ℕ → Bool) → Memory → ℕ → ℕ → ℕ → Memory × Bool
memory_map alloc mem base size prot =
    if leb max_regions (length mem.regions)
    then (mem, false)
    else if alloc (aligned_size size)
    then (
      record mem {
        regions =
            mem.regions
            ++ record {
              base = base;
              size = aligned_size size;
              prot = prot;
              bytes = replicate (aligned_size size) 0;
            }
              ∷ [];
      },
      true,
    )
    else (mem, false)

-- The first slot whose base is the given one.
pub find_base : List Region → ℕ → Option (ℕ × Region)
find_base [] base = none
find_base (r ∷ rs) base = if r.base == base then some (0, r) else later_slot (find_base rs base)

abbrev pub last_or : Region → List Region → Region
last_or r [] = r
last_or r (x ∷ xs) = last_or x xs

abbrev pub drop_last : List Region → List Region
drop_last [] = []
drop_last (x ∷ []) = []
drop_last (x ∷ y ∷ ys) = x ∷ drop_last (y ∷ ys)

-- `regions[i] = regions[--num_regions]`
pub swap_remove : List Region → ℕ → List Region
swap_remove [] i = []
swap_remove (r ∷ rs) i = drop_last (set (r ∷ rs) i (last_or r rs))

pub memory_unmap : Memory → ℕ → Memory × Bool
memory_unmap mem base = elim (find_base mem.regions base) [
  | none ↦ (mem, false)
  | some (i, r) ↦ (record mem { regions = swap_remove mem.regions i }, true)
]

-- The size is not looked at: the one region that holds `base` gets the new protection.
pub memory_protect : Memory → ℕ → ℕ → ℕ → Memory × Bool
memory_protect mem base size prot = elim (find_region mem.regions base) [
  | none ↦ (mem, false)
  | some (i, r) ↦ (record mem { regions = set mem.regions i (record r { prot = prot }) }, true)
]

-- Slot, region and offset of the byte at an address; `none` is the null pointer.
unfoldable pub resolve : Memory → ℕ → Option (ℕ × Region × ℕ)
resolve mem addr = elim (find_region mem.regions addr) [
  | none ↦ none
  | some (i, r) ↦ some (i, r, addr - r.base)
]

-- `memcpy` of `n` bytes out of a buffer into a word, and of a word into a buffer.
unfoldable pub load : ℕ → List ℕ → ℕ → Option ℕ
load zero bytes off = some 0
load (suc n) bytes off = do b ← get_elem? bytes off; v ← load n bytes (suc off); some (b + 256 * v)

unfoldable pub store : ℕ → List ℕ → ℕ → ℕ → Option (List ℕ)
store zero bytes off v = some bytes
store (suc n) bytes off v =
    let rest = store n (set bytes off (v % 256)) (suc off) (v / 256) in
    if ltb off (length bytes) then rest else none

-- The four readers are this one at 1, 2, 4 and 8 bytes: 0 where nothing is mapped.
unfoldable pub read_word : ℕ → Memory → ℕ → Option ℕ
read_word n mem addr = elim (resolve mem addr) [
  | none ↦ some 0
  | some (i, r, off) ↦ load n r.bytes off
]

abbrev pub put_bytes : Memory → ℕ → Region → List ℕ → Memory
put_bytes mem i r bytes = record mem { regions = set mem.regions i (record r { bytes = bytes }) }

-- The four writers: a write where nothing is mapped is dropped.
unfoldable pub write_word : ℕ → Memory → ℕ → ℕ → Option Memory
write_word n mem addr v = elim (resolve mem addr) [
  | none ↦ some mem
  | some (i, r, off) ↦ do bytes ← store n r.bytes off v; some (put_bytes mem i r bytes)
]

abbrev pub memory_read_u8 : Memory → ℕ → Option ℕ
memory_read_u8 = read_word 1

abbrev pub memory_read_u16 : Memory → ℕ → Option ℕ
memory_read_u16 = read_word 2

abbrev pub memory_read_u32 : Memory → ℕ → Option ℕ
memory_read_u32 = read_word 4

abbrev pub memory_read_u64 : Memory → ℕ → Option ℕ
memory_read_u64 = read_word 8

abbrev pub memory_write_u8 : Memory → ℕ → ℕ → Option Memory
memory_write_u8 = write_word 1

abbrev pub memory_write_u16 : Memory → ℕ → ℕ → Option Memory
memory_write_u16 = write_word 2

abbrev pub memory_write_u32 : Memory → ℕ → ℕ → Option Memory
memory_write_u32 = write_word 4

abbrev pub memory_write_u64 : Memory → ℕ → ℕ → Option Memory
memory_write_u64 = write_word 8

-- `dst[i] = *p` for each byte in turn; the bytes copied before a failure stay in `dst`.
abbrev pub memory_read : Memory → ℕ → ℕ → Option (Bool × List ℕ)
memory_read mem addr zero = some (true, [])
memory_read mem addr (suc len) =
    let rest = memory_read mem (u64 (addr + 1)) len in
    elim (resolve mem addr) [
      | none ↦ some (false, [])
      | some (i, r, off) ↦ do b ← get_elem? r.bytes off; (ok, bs) ← rest; some (ok, b ∷ bs)
    ]

-- The bytes written before a failure stay written.
abbrev pub memory_write : Memory → ℕ → List ℕ → Option (Memory × Bool)
memory_write mem addr [] = some (mem, true)
memory_write mem addr (b ∷ bs) = elim (resolve mem addr) [
  | none ↦ some (mem, false)
  | some (i, r, off) ↦ do
    bytes ← store 1 r.bytes off b
    memory_write (put_bytes mem i r bytes) (u64 (addr + 1)) bs
]
