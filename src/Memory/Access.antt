-- ===== src/Memory/Access.antt =====
-- Reads and writes of wg_memory.c together: a read after a write, at the same place and elsewhere.
use mathlib.Core.Option.{some-injective}
use wine_glass.Base.{
  ℕ, ◌+◌, ◌-◌, ◌%◌, ◌^◌, ◌≤◌, ◌<◌, ◌≡◌, refl, ap, sym, ◌∙◌, ◌⊎◌, inl, inr, none, some, List, arith,
  get_elem?, true, ◌==◌, Bool-cases, Option-cases, ==_iff, false, ap₂,
}
use wine_glass.Base.Fault.{>>=-eq-some}
use wine_glass.Memory.{
  Region, Memory, contains, find_region, resolve, load, store, read_word, write_word, put_bytes,
}
use wine_glass.Memory.Slots.{find_region-found, find_region-set, replaced}
use wine_glass.Memory.Words.{store-outside, load-store, load_ext}

pub resolve-found :
    (mem : Memory) (addr i off : ℕ) (r : Region)
    → resolve mem addr ≡ some (i, r, off)
    → (find_region mem.regions addr ≡ some (i, r)) × (off ≡ addr - r.base)
unfolding resolve
resolve-found mem addr i off r h = ground arith

pub read_word-mapped :
    (n : ℕ) (mem : Memory) (addr i : ℕ) (r : Region)
    → find_region mem.regions addr ≡ some (i, r)
    → read_word n mem addr ≡ load n r.bytes (addr - r.base)
unfolding read_word resolve
read_word-mapped n mem addr i r h = rw (h, resolve, read_word)

pub read_word-unmapped :
    (n : ℕ) (mem : Memory) (addr : ℕ)
    → find_region mem.regions addr ≡ none
    → read_word n mem addr ≡ some 0
unfolding read_word resolve
read_word-unmapped n mem addr h = rw (h, resolve, read_word)

-- A write goes to the buffer of the region that its address resolves to.
pub write_word-cases :
    (n : ℕ) (mem : Memory) (addr v : ℕ) {out : Memory}
    → write_word n mem addr v ≡ some out
    → ((resolve mem addr ≡ none) × (out ≡ mem))
      ⊎ ((i : ℕ) × (r : Region) × (off : ℕ) × (bytes : List ℕ) × (resolve mem addr
            ≡ some (i, r, off))
          × (store n r.bytes off v ≡ some bytes)
          × (out ≡ put_bytes mem i r bytes))
unfolding write_word
write_word-cases n mem addr v {out} h = elim (Option-cases (resolve mem addr)) [
  | inl e ↦ inl (e, sym (some-injective _ _ (rw (e, write_word) at h)))
  | inr ((i, r, off), e) ↦
      let (bytes, f, g) = >>=-eq-some (store n r.bytes off v) _ (rw (e, write_word) at h) in
      inr (i, r, off, bytes, e, f, sym (some-injective _ _ g))
]

module _ (mem : Memory) (i : ℕ) (r : Region) (bytes : List ℕ) where
  -- New bytes in a buffer do not move the regions.
  pub find_region-put_bytes :
      (addr b : ℕ)
      → find_region mem.regions addr ≡ some (i, r)
      → find_region (put_bytes mem i r bytes).regions b
        ≡ replaced i (record r { bytes = bytes }) (find_region mem.regions b)
  find_region-put_bytes addr b h =
      find_region-set mem.regions b i r (record r { bytes = bytes })
        (find_region-found mem.regions addr i r h).0 (unfold contains in refl)

  -- So a word that is read goes to the same slot and offset as before.
  read_word-put_bytes :
      (n addr : ℕ)
      → find_region mem.regions addr ≡ some (i, r)
      → read_word n (put_bytes mem i r bytes) addr ≡ load n bytes (addr - r.base)
  read_word-put_bytes n addr found =
      read_word-mapped n (put_bytes mem i r bytes) addr i (record r { bytes = bytes })
        (find_region-put_bytes addr addr found ∙ rw found (ground arith))

  -- A word in another slot is read as before.
  read_word-other_slot :
      (n addr b j : ℕ) (s : Region)
      → find_region mem.regions addr ≡ some (i, r)
      → find_region mem.regions b ≡ some (j, s)
      → (j == i) ≡ false
      → read_word n (put_bytes mem i r bytes) b ≡ read_word n mem b
  read_word-other_slot n addr b j s found foundb ne = rw (read_word-mapped n mem b j s foundb) (
      read_word-mapped n (put_bytes mem i r bytes) b j s
        (find_region-put_bytes addr b found ∙ rw (foundb, replaced, ne)))

  read_word-still_unmapped :
      (n addr b : ℕ)
      → find_region mem.regions addr ≡ some (i, r)
      → find_region mem.regions b ≡ none
      → read_word n (put_bytes mem i r bytes) b ≡ read_word n mem b
  read_word-still_unmapped n addr b found foundb = rw (read_word-unmapped n mem b foundb) (
      read_word-unmapped n (put_bytes mem i r bytes) b
        (find_region-put_bytes addr b found ∙ rw foundb))

-- A word that was written to a mapped address is read back, cut to its width.
pub read_word-write_word :
    (n : ℕ) (mem : Memory) (addr v : ℕ) (at : ℕ × Region × ℕ) {out : Memory}
    → resolve mem addr ≡ some at
    → write_word n mem addr v ≡ some out
    → read_word n out addr ≡ some (v % 256 ^ n)
read_word-write_word n mem addr v at mapped h = elim (write_word-cases n mem addr v h) [
  | inl (e, f) ↦ cc
  | inr (i, r, off, bytes, e, f, g) ↦
      let (found, o) = resolve-found mem addr i off r e in
      rw (g, read_word-put_bytes mem i r bytes n addr found, ← o) (load-store n r.bytes off v f)
]

pub contains-base : (r : Region) (addr : ℕ) → contains r addr ≡ true → r.base ≤ addr
unfolding contains
contains-base r addr h = ground arith

pub contains-end :
    (r : Region) (addr : ℕ) → r.size < 2 ^ 64 → contains r addr ≡ true → addr < r.base + r.size
unfolding contains
contains-end r addr s h = ground arith

abbrev Apart : ℕ → ℕ → ℕ → ℕ → Type 0
Apart a n b m = (b + m ≤ a) ⊎ (a + n ≤ b)

-- In the buffer that was written, a word apart from the one written is the same.
load_elsewhere :
    (n m : ℕ) (r : Region) (addr b v : ℕ) {bytes : List ℕ}
    → store n r.bytes (addr - r.base) v ≡ some bytes
    → r.base ≤ addr
    → r.base ≤ b
    → Apart addr n b m
    → load m bytes (b - r.base) ≡ load m r.bytes (b - r.base)
load_elsewhere n m r addr b v {bytes} h p q apart =
    load_ext m bytes r.bytes (b - r.base)
      λ j lo hi. store-outside n r.bytes (addr - r.base) v j h (outside apart j lo hi)
  where
    outside :
        Apart addr n b m
        → (j : ℕ) → b - r.base ≤ j
        → j < b - r.base + m
        → (j < addr - r.base) ⊎ (addr - r.base + n ≤ j)
    outside (inl e) j lo hi = inl (omega arith)
    outside (inr e) j lo hi = inr (omega arith)

-- A region in the slot of another, both of one table, is that region.
pub same_slot :
    (mem : Memory) (addr b i j : ℕ) (r s : Region)
    → find_region mem.regions addr ≡ some (i, r)
    → find_region mem.regions b ≡ some (j, s)
    → j ≡ i
    → r ≡ s
same_slot mem addr b i j r s h k e = some-injective _ _ (
    sym (find_region-found mem.regions addr i r h).0
    ∙ ap (get_elem? mem.regions) (sym e)
    ∙ (find_region-found mem.regions b j s k).0)

-- A write changes no word that lies apart from it.
pub read_word-elsewhere :
    (n m : ℕ) (mem : Memory) (addr b v : ℕ) {out : Memory}
    → write_word n mem addr v ≡ some out
    → (b + m ≤ addr) ⊎ (addr + n ≤ b)
    → read_word m out b ≡ read_word m mem b
read_word-elsewhere n m mem addr b v h apart = elim (write_word-cases n mem addr v h) [
  | inl (e, f) ↦ rw f
  | inr (i, r, off, bytes, e, f, g) ↦
      let (found, o) = resolve-found mem addr i off r e in
      rw g (written i r bytes found (rw o at f) (Option-cases (find_region mem.regions b)))
]
  where
    inside :
        (i : ℕ) (r : Region) (bytes : List ℕ)
        → find_region mem.regions addr ≡ some (i, r)
        → store n r.bytes (addr - r.base) v ≡ some bytes
        → find_region mem.regions b ≡ some (i, r)
        → read_word m (put_bytes mem i r bytes) b ≡ read_word m mem b
    inside i r bytes found st foundb =
        read_word-put_bytes mem i r bytes m b foundb
        ∙ load_elsewhere n m r addr b v st
            (contains-base r addr (find_region-found mem.regions addr i r found).1)
            (contains-base r b (find_region-found mem.regions b i r foundb).1) apart
        ∙ sym (read_word-mapped m mem b i r foundb)

    written :
        (i : ℕ) (r : Region) (bytes : List ℕ)
        → find_region mem.regions addr ≡ some (i, r)
        → store n r.bytes (addr - r.base) v ≡ some bytes
        → (find_region mem.regions b ≡ none)
          ⊎ ((p : ℕ × Region) × (find_region mem.regions b ≡ some p))
        → read_word m (put_bytes mem i r bytes) b ≡ read_word m mem b
    written i r bytes found st (inl u) = read_word-still_unmapped mem i r bytes m addr b found u
    written i r bytes found st (inr ((j, s), u)) = elim (Bool-cases (j == i)) [
      | inl e ↦
          let e' : j ≡ i = (==_iff j i).0 e in
          inside i r bytes found st
            (u ∙ ap₂ (λ x y. some (x, y)) e' (sym (same_slot mem addr b i j r s found u e')))
      | inr e ↦ read_word-other_slot mem i r bytes m addr b j s found u e
    ]
