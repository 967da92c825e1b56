-- ===== src/Memory/Total.antt =====
-- A word that lies inside a region can be written.
use wine_glass.Base.{ℕ, ◌+◌, ◌-◌, ◌≤◌, ◌≡◌, some, arith}
use wine_glass.Memory.{Memory, Region, find_region, resolve, write_word, put_bytes}
use wine_glass.Memory.Words.{store_total}
use wine_glass.Memory.Slots.{find_region-found}
use wine_glass.Memory.Access.{contains-base}
use wine_glass.Memory.Valid.{IsMemory, found-IsRegion}

pub resolve_at :
    (mem : Memory) (addr i : ℕ) (r : Region)
    → find_region mem.regions addr ≡ some (i, r)
    → resolve mem addr ≡ some (i, r, addr - r.base)
unfolding resolve
resolve_at mem addr i r found = rw (found, resolve)

pub write_word_total :
    (n : ℕ) (mem : Memory) (addr v i : ℕ) (r : Region)
    → IsMemory mem
    → find_region mem.regions addr ≡ some (i, r)
    → addr + n ≤ r.base + r.size
    → (out : Memory) × (write_word n mem addr v ≡ some out)
unfolding write_word
write_word_total n mem addr v i r m found fits =
    let low = contains-base r addr (find_region-found mem.regions addr i r found).1 in
    let (bytes, e) =
      store_total n r.bytes (addr - r.base) v
        (omega (arith, (found-IsRegion mem addr i r m found).buffer)) in
    (put_bytes mem i r bytes, rw (resolve_at mem addr i r found, e, write_word))
