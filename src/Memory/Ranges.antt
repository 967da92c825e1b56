-- ===== src/Memory/Ranges.antt =====
-- `wg_memory_read` and `wg_memory_write`: byte ranges, one byte at a time.
use mathlib.Core.Path.{subst}
use mathlib.Core.Option.{some-injective}
use wine_glass.Base.{
  ℕ, suc, ◌+◌, ◌-◌, Bool-cases, ◌==◌, ◌%◌, ◌^◌, ◌<◌, ◌≡◌, refl, ap, sym, ◌∙◌, inl, inr, Bool, true,
  false, Option, some, Option-cases, List, [], ◌∷◌, length, get_elem?, All, arith,
}
use wine_glass.Base.Words.{u64}
use wine_glass.Base.Fault.{>>=-eq-some}
use wine_glass.Memory.{
  Region, Memory, find_region, resolve, load, store, read_word, write_word, put_bytes, memory_read,
  memory_write,
}
use wine_glass.Memory.Slots.{replaced}
use wine_glass.Memory.Access.{
  write_word-cases, resolve-found, read_word-mapped, find_region-put_bytes, read_word-write_word,
  read_word-elsewhere,
}
use wine_glass.Memory.Total.{resolve_at}
use wine_glass.Memory.Valid.{IsByte}

abbrev Mapped : Memory → ℕ → Type 0
Mapped mem addr = (at : ℕ × Region) × (find_region mem.regions addr ≡ some at)

replaced-some :
    (i : ℕ) (r : Region) (at : ℕ × Region)
    → (new : ℕ × Region) × (replaced i r (some at) ≡ some new)
replaced-some i r (j, s) = elim (Bool-cases (j == i)) [
  | inl e ↦ ((j, r), rw e)
  | inr e ↦ ((j, s), rw e)
]

-- A write takes no address out of the map.
write_word-Mapped :
    (n : ℕ) (mem : Memory) (addr v x : ℕ) {out : Memory}
    → write_word n mem addr v ≡ some out
    → Mapped mem x
    → Mapped out x
write_word-Mapped n mem addr v x {out} h (at, mapped) = elim (write_word-cases n mem addr v h) [
  | inl (e, f) ↦ (at, rw f mapped)
  | inr (i, r, off, bytes, e, f, g) ↦
      let found = (resolve-found mem addr i off r e).0 in
      let (new, kept) = replaced-some i (record r { bytes = bytes }) at in
      (
        new,
        ap (λ (m : Memory). find_region m.regions x) g
            ∙ find_region-put_bytes mem i r bytes addr x found
            ∙ ap (replaced i (record r { bytes = bytes })) mapped
            ∙ kept,
      )
]

memory_write-cons :
    (mem : Memory) (addr b : ℕ) (bs : List ℕ) {out : Memory}
    → memory_write mem addr (b ∷ bs) ≡ some (out, true)
    → (m : Memory) × Mapped mem addr
      × (write_word 1 mem addr b ≡ some m)
      × (memory_write m (u64 (addr + 1)) bs ≡ some (out, true))
unfolding write_word
memory_write-cons mem addr b bs h = elim (Option-cases (resolve mem addr)) [
  | inl e ↦ absurd (failed (rw (e, memory_write) at h))
  | inr ((i, r, off), e) ↦
      let (bytes, f, g) = >>=-eq-some (store 1 r.bytes off b) _ (rw (e, memory_write) at h) in
      (
        put_bytes mem i r bytes,
        ((i, r), (resolve-found mem addr i off r e).0),
        rw (e, f, write_word),
        g,
      )
]
  where
    failed :
        {m : Memory} → ◌≡◌ {A = Option (Memory × Bool)} (some (mem, false)) (some (m, true)) → ⊥
    failed e = let bad : false ≡ true = ap (λ (p : Memory × Bool). p.1) (some-injective _ _ e) in cc

-- A write of bytes reaches no byte in front of it.
memory_write-before :
    (bs : List ℕ) (mem : Memory) (addr x : ℕ) {out : Memory}
    → memory_write mem addr bs ≡ some (out, true)
    → x < addr
    → addr + length bs < 2 ^ 64
    → Mapped mem x
    → Mapped out x × (read_word 1 out x ≡ read_word 1 mem x)
memory_write-before [] mem addr x h below fits at =
    let same : mem ≡ _ = ap (λ (p : Memory × Bool). p.0) (some-injective _ _ h) in
    (subst (λ m. Mapped m x) same at, ap (λ m. read_word 1 m x) (sym same))
memory_write-before (b ∷ bs) mem addr x h below fits at =
    let (m, here, one, rest) = memory_write-cons mem addr b bs h in
    let next : u64 (addr + 1) ≡ addr + 1 = omega arith in
    let (after, same) =
      memory_write-before bs m (u64 (addr + 1)) x rest (omega (arith, next)) (omega (arith, next))
        (write_word-Mapped 1 mem addr b x one at) in
    (after, same ∙ read_word-elsewhere 1 1 mem addr x b one (inl (omega arith)))

memory_read-cons :
    (mem : Memory) (addr n c : ℕ) (bs : List ℕ)
    → Mapped mem addr
    → read_word 1 mem addr ≡ some c
    → memory_read mem (u64 (addr + 1)) n ≡ some (true, bs)
    → memory_read mem addr (suc n) ≡ some (true, c ∷ bs)
unfolding load
memory_read-cons mem addr n c bs ((i, r), found) here rest =
    let off = addr - r.base in
    let e = resolve_at mem addr i r found in
    let (b, at, last) =
      >>=-eq-some (get_elem? r.bytes off) _ (sym (read_word-mapped 1 mem addr i r found) ∙ here) in
    let same : b ≡ c = omega (arith, some-injective _ _ last) in
    rw (e, at, rest, memory_read) (ap (λ d. some (true, d ∷ bs)) same)

-- What `wg_memory_write` has written, when it reports success, `wg_memory_read` reads back, and it
-- succeeds: for bytes that end before the last address of the 64-bit space, across any regions.
pub memory_read-memory_write :
    (bs : List ℕ) (mem : Memory) (addr : ℕ) {out : Memory}
    → All IsByte bs
    → addr + length bs < 2 ^ 64
    → memory_write mem addr bs ≡ some (out, true)
    → memory_read out addr (length bs) ≡ some (true, bs)
memory_read-memory_write [] mem addr v fits h = refl
memory_read-memory_write (b ∷ bs) mem addr {out} v fits h =
    let (m, at, one, rest) = memory_write-cons mem addr b bs h in
    let next : u64 (addr + 1) ≡ addr + 1 = omega arith in
    let later = memory_read-memory_write bs m (u64 (addr + 1)) v.1 (omega (arith, next)) rest in
    let (after, same) =
      memory_write-before bs m (u64 (addr + 1)) addr rest (omega (arith, next))
        (omega (arith, next)) (write_word-Mapped 1 mem addr b addr one at) in
    let byte : b % 256 ≡ b = omega (arith, v.0) in
    memory_read-cons out addr (length bs) b bs after (same ∙ written m at one ∙ ap some byte) later
  where
    written :
        (m : Memory)
        → Mapped mem addr
        → write_word 1 mem addr b ≡ some m
        → read_word 1 m addr ≡ some (b % 256)
    written m ((i, r), found) one =
        read_word-write_word 1 mem addr b (i, r, addr - r.base) (resolve_at mem addr i r found) one
