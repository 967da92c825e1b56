-- ===== src/Memory/Valid.antt =====
-- What every operation of wg_memory.c keeps: each region has a buffer of its size, in whole pages.
use mathlib.Core.Path.{subst}
use mathlib.Core.Option.{some-injective}
use native.Mathlib.Nat.{pow-succ', one-le-pow}
use wine_glass.Base.{
  ℕ, zero, suc, ◌+◌, ◌-◌, ◌*◌, ◌/◌, ◌%◌, ◌^◌, ◌≤◌, ◌<◌, ◌≡◌, refl, ap, sym, ◌∙◌, inl, inr, some,
  List, [], ◌∷◌, arith, length, get_elem?, set, replicate, length-replicate, length-set,
  length-append, Bool, false, leb, ◌==◌, All, All-get, All-set, All-append, All-replicate,
  if◌then◌else◌, Bool-cases, Option-cases,
}
use wine_glass.Base.Fault.{>>=-eq-some}
use wine_glass.Memory.{
  Region, Memory, find_region, find_base, load, store, read_word, write_word, put_bytes,
  max_regions, aligned_size, memory_create, memory_map, memory_unmap, memory_protect, swap_remove,
  last_or, drop_last,
}
use wine_glass.Memory.Slots.{find_region-found}
use wine_glass.Memory.Words.{length-store, store-suc_rest}
use wine_glass.Memory.Access.{write_word-cases, resolve-found, read_word-mapped, read_word-unmapped}

abbrev pub IsByte : ℕ → Type 0
IsByte b = b < 256

pub record IsRegion (r : Region) : Type 0 where
  pub base_fits : r.base < 2 ^ 64
  pub nonempty : 0 < r.size
  pub size_fits : r.size < 2 ^ 64
  pub whole_pages : r.size % 4096 ≡ 0
  pub buffer : length r.bytes ≡ r.size
  pub bytes_fit : All IsByte r.bytes

pub record IsMemory (mem : Memory) : Type 0 where
  pub few : length mem.regions ≤ 1024
  pub all_valid : All IsRegion mem.regions

-- A request of up to 2^64 - 4096 bytes gets the least number of whole pages that holds it, and at
-- least one page.
pub aligned_size_least :
    (size : ℕ)
    → size ≤ 2 ^ 64 - 4096
    → (size ≤ aligned_size size)
      × (0 < aligned_size size)
      × (aligned_size size % 4096 ≡ 0)
      × (aligned_size size < size + 4096 + (if size == 0 then 1 else 0))
unfolding aligned_size
aligned_size_least size h = ground arith

aligned_size_valid :
    (size : ℕ)
    → (0 < aligned_size size) × (aligned_size size < 2 ^ 64) × (aligned_size size % 4096 ≡ 0)
unfolding aligned_size
aligned_size_valid size = ground arith

fresh-IsRegion :
    (base size prot : ℕ)
    → base < 2 ^ 64
    → IsRegion (record {
      base = base;
      size = aligned_size size;
      prot = prot;
      bytes = replicate (aligned_size size) 0;
    })
fresh-IsRegion base size prot h =
    let (p, q, w) = aligned_size_valid size in
    record {
      base_fits = h;
      nonempty = p;
      size_fits = q;
      whole_pages = w;
      buffer = length-replicate (aligned_size size) 0;
      bytes_fit = All-replicate IsByte (aligned_size size) 0 (omega arith);
    }

room_for_one : (n : ℕ) → leb max_regions n ≡ false → n + 1 ≤ 1024
room_for_one n h = ground arith

pub memory_create-IsMemory : (n : ℕ) → IsMemory (memory_create n)
unfolding memory_create
memory_create-IsMemory n = record { few = omega arith; all_valid = tt }

-- Mapping at a 64-bit base keeps a well-formed memory well formed, whatever the size, and whether
-- or not the table or the allocator has room.
pub memory_map-IsMemory :
    (alloc : ℕ → Bool) (mem : Memory) (base size prot : ℕ)
    → base < 2 ^ 64
    → IsMemory mem
    → IsMemory (memory_map alloc mem base size prot).0
unfolding memory_map
memory_map-IsMemory alloc mem base size prot h v =
    elim (Bool-cases (leb max_regions (length mem.regions))) [
      | inl full ↦ rw full v
      | inr room ↦ elim (Bool-cases (alloc (aligned_size size))) [
        | inl got ↦
            rw (room, got)
              (record {
                few = omega (arith, length-append {0} mem.regions, room_for_one _ room);
                all_valid =
                    All-append IsRegion mem.regions _ v.all_valid
                      (fresh-IsRegion base size prot h, tt);
              })
        | inr out ↦ rw (room, out) v
      ]
    ]

All-drop_last : (rs : List Region) → All IsRegion rs → All IsRegion (drop_last rs)
All-drop_last [] h = h
All-drop_last (x ∷ []) h = tt
All-drop_last (x ∷ y ∷ ys) h = (h.0, All-drop_last (y ∷ ys) h.1)

last_or-IsRegion :
    (r : Region) (rs : List Region) → IsRegion r → All IsRegion rs → IsRegion (last_or r rs)
last_or-IsRegion r [] h k = h
last_or-IsRegion r (x ∷ xs) h k = last_or-IsRegion x xs k.0 k.1

length-drop_last : (rs : List Region) → length (drop_last rs) ≡ length rs - 1
length-drop_last [] = refl
length-drop_last (x ∷ []) = refl
length-drop_last (x ∷ y ∷ ys) = omega (arith, length-drop_last (y ∷ ys))

pub length-swap_remove : (rs : List Region) (i : ℕ) → length (swap_remove rs i) ≡ length rs - 1
unfolding swap_remove
length-swap_remove [] i = refl
length-swap_remove (r ∷ rs) i =
    length-drop_last (set (r ∷ rs) i (last_or r rs))
    ∙ ap (λ (n : ℕ). n - 1) (length-set (r ∷ rs) i (last_or r rs))

swap_remove-valid : (rs : List Region) (i : ℕ) → All IsRegion rs → All IsRegion (swap_remove rs i)
unfolding swap_remove
swap_remove-valid [] i h = tt
swap_remove-valid (r ∷ rs) i h =
    All-drop_last _ (All-set IsRegion (r ∷ rs) i (last_or r rs) h (last_or-IsRegion r rs h.0 h.1))

pub memory_unmap-IsMemory :
    (mem : Memory) (base : ℕ) → IsMemory mem → IsMemory (memory_unmap mem base).0
unfolding memory_unmap
memory_unmap-IsMemory mem base v = elim (Option-cases (find_base mem.regions base)) [
  | inl e ↦ rw (e, memory_unmap) v
  | inr ((i, r), e) ↦
      rw (e, memory_unmap)
        (record {
          few = omega (arith, length-swap_remove mem.regions i, v.few);
          all_valid = swap_remove-valid mem.regions i v.all_valid;
        })
]

-- A slot that takes a valid region leaves a valid table.
set-IsMemory :
    (mem : Memory) (i : ℕ) (r : Region)
    → IsMemory mem
    → IsRegion r
    → IsMemory (record mem { regions = set mem.regions i r })
set-IsMemory mem i r v h = record {
  few = omega (arith, length-set mem.regions i r, v.few);
  all_valid = All-set IsRegion mem.regions i r v.all_valid h;
}

pub found-IsRegion :
    (mem : Memory) (addr i : ℕ) (r : Region)
    → IsMemory mem
    → find_region mem.regions addr ≡ some (i, r)
    → IsRegion r
found-IsRegion mem addr i r v e =
    All-get IsRegion mem.regions i v.all_valid (find_region-found mem.regions addr i r e).0

pub memory_protect-IsMemory :
    (mem : Memory) (base size prot : ℕ)
    → IsMemory mem
    → IsMemory (memory_protect mem base size prot).0
unfolding memory_protect
memory_protect-IsMemory mem base size prot v = elim (Option-cases (find_region mem.regions base)) [
  | inl e ↦ rw (e, memory_protect) v
  | inr ((i, r), e) ↦
      let h = found-IsRegion mem base i r v e in
      rw (e, memory_protect)
        (set-IsMemory mem i (record r { prot = prot }) v
          (record {
            base_fits = h.base_fits;
            nonempty = h.nonempty;
            size_fits = h.size_fits;
            whole_pages = h.whole_pages;
            buffer = h.buffer;
            bytes_fit = h.bytes_fit;
          }))
]

store-fit :
    (n : ℕ) (bytes : List ℕ) (off v : ℕ) {out : List ℕ}
    → store n bytes off v ≡ some out
    → All IsByte bytes
    → All IsByte out
unfolding store
store-fit zero bytes off v h k = subst (All IsByte) (some-injective _ _ h) k
store-fit (suc n) bytes off v h k =
    store-fit n _ (suc off) (v / 256) (store-suc_rest n bytes off v h)
      (All-set IsByte bytes off (v % 256) k (omega arith))

pub put_bytes-IsMemory :
    (n : ℕ) (mem : Memory) (i off v : ℕ) (r : Region) {out : List ℕ}
    → IsMemory mem
    → IsRegion r
    → store n r.bytes off v ≡ some out
    → IsMemory (put_bytes mem i r out)
put_bytes-IsMemory n mem i off v r {out} m h e =
    set-IsMemory mem i (record r { bytes = out }) m
      (record {
        base_fits = h.base_fits;
        nonempty = h.nonempty;
        size_fits = h.size_fits;
        whole_pages = h.whole_pages;
        buffer = length-store n r.bytes off v e ∙ h.buffer;
        bytes_fit = store-fit n r.bytes off v e h.bytes_fit;
      })

-- A write that does not fault keeps a well-formed memory well formed: at most 1024 regions, each of
-- whole pages below 2^64, with a buffer of its size that holds bytes.
pub write_word-IsMemory :
    (n : ℕ) (mem : Memory) (addr v : ℕ) {out : Memory}
    → IsMemory mem
    → write_word n mem addr v ≡ some out
    → IsMemory out
write_word-IsMemory n mem addr v m h = elim (write_word-cases n mem addr v h) [
  | inl (e, f) ↦ rw f m
  | inr (i, r, off, bytes, e, f, g) ↦ rw g (
      put_bytes-IsMemory n mem i off v r m
        (found-IsRegion mem addr i r m (resolve-found mem addr i off r e).0) f)
]

load-lt :
    (n : ℕ) (bytes : List ℕ) (off : ℕ) {v : ℕ}
    → All IsByte bytes
    → load n bytes off ≡ some v
    → v < 256 ^ n
unfolding load
load-lt zero bytes off h e = ground arith
load-lt (suc n) bytes off {v} h e =
    let (b, eb, rest) = >>=-eq-some (get_elem? bytes off) _ e in
    let (w, ew, last) = >>=-eq-some (load n bytes (suc off)) _ rest in
    below b w (All-get IsByte bytes off h eb) (load-lt n bytes (suc off) h ew)
      (some-injective _ _ last)
  where
    below : (b w : ℕ) → b < 256 → w < 256 ^ n → b + 256 * w ≡ v → v < 256 ^ suc n
    below b w p q e = omega (arith, pow-succ' 256 n)

-- A word that is read from a well-formed memory fits its width.
pub read_word-lt :
    (n : ℕ) (mem : Memory) (addr : ℕ) {v : ℕ}
    → IsMemory mem
    → read_word n mem addr ≡ some v
    → v < 256 ^ n
read_word-lt n mem addr m h = elim (Option-cases (find_region mem.regions addr)) [
  | inl e ↦ ground (arith, read_word-unmapped n mem addr e, one-le-pow n 256)
  | inr ((i, r), e) ↦
      load-lt n r.bytes (addr - r.base) (found-IsRegion mem addr i r m e).bytes_fit
        (sym (read_word-mapped n mem addr i r e) ∙ h)
]
