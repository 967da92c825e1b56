-- ===== src/Memory/Mapping.antt =====
-- `wg_memory_map`, `wg_memory_unmap` and `wg_memory_protect` as changes of the table of regions,
-- and what the bounds of a region mean for reads.
use mathlib.Core.List.{Perm}
use mathlib.Core.List.Perm
use mathlib.Core.Path.{subst}
use mathlib.Core.Option.{some-injective}
use native.Mathlib.Decide.{dec_lt}
use wine_glass.Base.{
  ℕ, zero, suc, ◌+◌, ◌-◌, ◌≤◌, ◌<◌, ◌≡◌, ◌↔◌, ◌≢◌, Option, refl, ap, ◌∙◌, ◌⊎◌, inl, inr, none, some,
  List, [], ◌∷◌, arith, length, get_elem?, set, true, false, ◌==◌, Bool-cases, Option-cases, ==_iff,
}
use wine_glass.Memory.{
  Region, Memory, contains, find_region, find_base, memory_unmap, memory_protect, swap_remove,
  last_or, drop_last, later_slot, read_word, load,
}
use wine_glass.Memory.Slots.{find_region-found, find_region-set, later_slot-some, replaced}
use wine_glass.Memory.Words.{load_total, load-fault}
use wine_glass.Memory.Access.{
  read_word-mapped, read_word-unmapped, contains-base, contains-end, same_slot,
}
use wine_glass.Memory.Valid.{IsMemory, found-IsRegion}

last-perm : (x : Region) (xs : List Region) → Perm (x ∷ xs) (last_or x xs ∷ drop_last (x ∷ xs))
last-perm x [] = Perm.refl _
last-perm x (y ∷ ys) = Perm.trans (Perm.cons x (last-perm y ys)) (Perm.swap _ x _)

drop_last-set :
    (x y : Region) (ys : List Region) (i : ℕ) (r : Region)
    → drop_last (x ∷ set (y ∷ ys) i r) ≡ x ∷ drop_last (set (y ∷ ys) i r)
drop_last-set x y ys zero r = refl
drop_last-set x y ys (suc i) r = refl

first-perm : (x : Region) (xs : List Region) → Perm (x ∷ xs) (x ∷ drop_last (last_or x xs ∷ xs))
first-perm x [] = Perm.refl _
first-perm x (y ∷ ys) = Perm.cons x (last-perm y ys)

removed-perm :
    (x : Region) (xs : List Region) (i : ℕ) {r : Region}
    → get_elem? (x ∷ xs) i ≡ some r
    → Perm (x ∷ xs) (r ∷ drop_last (set (x ∷ xs) i (last_or x xs)))
removed-perm x xs zero e =
    subst (λ y. Perm (x ∷ xs) (y ∷ drop_last (last_or x xs ∷ xs))) (some-injective _ _ e)
      (first-perm x xs)
removed-perm x [] (suc i) e = cc
removed-perm x (y ∷ ys) (suc i) e =
    rw (drop_last-set x y ys i (last_or y ys))
      (Perm.trans (Perm.cons x (removed-perm y ys i e)) (Perm.swap _ x _))

find_base-cons :
    (x : Region) (rs : List Region) (base : ℕ) {i : ℕ} {r : Region}
    → find_base (x ∷ rs) base ≡ some (i, r)
    → ((i ≡ 0) × (r ≡ x) × (x.base ≡ base))
      ⊎ ((j : ℕ) × (i ≡ suc j) × (find_base rs base ≡ some (j, r)))
unfolding find_base
find_base-cons x rs base h = elim (Bool-cases (x.base == base)) [
  | inl hit ↦ inl (ground arith, ground arith, (==_iff _ _).0 hit)
  | inr miss ↦ inr (later_slot-some (find_base rs base) (ground arith))
]

pub find_base-found :
    (rs : List Region) (base i : ℕ) (r : Region)
    → find_base rs base ≡ some (i, r)
    → (get_elem? rs i ≡ some r) × (r.base ≡ base)
find_base-found [] base i r h = unfold find_base in cc
find_base-found (x ∷ rs) base i r h = elim (find_base-cons x rs base h) [
  | inl (e, f, c) ↦ rw (e, f) (refl, c)
  | inr (j, e, f) ↦ rw e (find_base-found rs base j r f)
]

swap_remove-perm :
    (rs : List Region) (i : ℕ) (r : Region)
    → get_elem? rs i ≡ some r
    → Perm rs (r ∷ swap_remove rs i)
unfolding swap_remove
swap_remove-perm [] i r e = cc
swap_remove-perm (x ∷ xs) i r e = removed-perm x xs i e

later_slot-none : (o : Option (ℕ × Region)) → later_slot o ≡ none → o ≡ none
later_slot-none none h = refl
later_slot-none (some p) h = cc

-- Where the search finds none, no region of the table has the base.
find_base-none :
    (rs : List Region) (base : ℕ)
    → find_base rs base ≡ none
    → (i : ℕ) (r : Region) → get_elem? rs i ≡ some r
    → r.base ≢ base
unfolding find_base
find_base-none [] base h i r at same = absurd cc
find_base-none (x ∷ rs) base h zero r at same =
    let e : x.base ≡ base = ap (λ (y : Region). y.base) (some-injective _ _ at) ∙ same in
    let found : ◌≡◌ {A = Option (ℕ × Region)} (some (0, x)) none =
      rw ((==_iff x.base base).1 e, find_base) at h in
    absurd cc
find_base-none (x ∷ rs) base h (suc j) r at same = elim (Bool-cases (x.base == base)) [
  | inl hit ↦
      let found : ◌≡◌ {A = Option (ℕ × Region)} (some (0, x)) none = rw (hit, find_base) at h in
      absurd cc
  | inr miss ↦
      find_base-none rs base (later_slot-none (find_base rs base) (rw (miss, find_base) at h)) j r
        at same
]

-- Unmapping a base takes one region with that base out of the table and keeps all others, in some
-- order; it reports failure and changes nothing only where no region of the table has the base.
pub memory_unmap_removes :
    (mem : Memory) (base : ℕ)
    → (((i : ℕ) (r : Region) → get_elem? mem.regions i ≡ some r → r.base ≢ base)
        × (memory_unmap mem base ≡ (mem, false)))
      ⊎ ((r : Region) × (r.base ≡ base)
          × ((memory_unmap mem base).1 ≡ true)
          × Perm mem.regions (r ∷ (memory_unmap mem base).0.regions))
unfolding memory_unmap
memory_unmap_removes mem base = elim (Option-cases (find_base mem.regions base)) [
  | inl e ↦ inl (find_base-none mem.regions base e, rw (e, memory_unmap))
  | inr ((i, r), e) ↦
      let (at, b) = find_base-found mem.regions base i r e in
      inr (r, b, rw (e, memory_unmap), rw (e, memory_unmap) (swap_remove-perm mem.regions i r at))
]

find_region-set_prot :
    (mem : Memory) (base addr i prot : ℕ) (r : Region)
    → find_region mem.regions base ≡ some (i, r)
    → find_region (set mem.regions i (record r { prot = prot })) addr
      ≡ replaced i (record r { prot = prot }) (find_region mem.regions addr)
find_region-set_prot mem base addr i prot r found =
    find_region-set mem.regions addr i r (record r { prot = prot })
      (find_region-found mem.regions base i r found).0 (unfold contains in refl)

-- A region that differs from `r` in its protection alone is found and read as `r` was.
read_word-set_prot :
    (n : ℕ) (mem : Memory) (base addr i prot : ℕ) (r : Region)
    → find_region mem.regions base ≡ some (i, r)
    → (find_region mem.regions addr ≡ none)
      ⊎ ((p : ℕ × Region) × (find_region mem.regions addr ≡ some p))
    → read_word n (record mem { regions = set mem.regions i (record r { prot = prot }) }) addr
      ≡ read_word n mem addr
read_word-set_prot n mem base addr i prot r found (inl e) =
    rw (read_word-unmapped n mem addr e)
      (read_word-unmapped n _ addr (find_region-set_prot mem base addr i prot r found ∙ rw e))
read_word-set_prot n mem base addr i prot r found (inr ((j, s), e)) = elim (Bool-cases (j == i)) [
  | inl same ↦ rw (read_word-mapped n mem addr j s e) (
      read_word-mapped n _ addr j (record r { prot = prot })
        (find_region-set_prot mem base addr i prot r found ∙ rw (e, replaced, same))
      ∙ ap (λ (t : Region). load n t.bytes (addr - t.base))
          (same_slot mem base addr i j r s found e ((==_iff j i).0 same)))
  | inr apart ↦ rw (read_word-mapped n mem addr j s e) (
      read_word-mapped n _ addr j s
        (find_region-set_prot mem base addr i prot r found ∙ rw (e, replaced, apart)))
]

-- Protecting a range changes what no read sees.
pub read_word-memory_protect :
    (n : ℕ) (mem : Memory) (base size prot addr : ℕ)
    → read_word n (memory_protect mem base size prot).0 addr ≡ read_word n mem addr
unfolding memory_protect
read_word-memory_protect n mem base size prot addr =
    elim (Option-cases (find_region mem.regions base)) [
      | inl e ↦ rw (e, memory_protect)
      | inr ((i, r), e) ↦
          rw (e, memory_protect)
            (read_word-set_prot n mem base addr i prot r e
              (Option-cases (find_region mem.regions addr)))
    ]

-- In a well-formed memory the read of a word that starts in a region is a fault exactly when the
-- word ends behind the region: there C would read outside the buffer.
pub read_word-straddling :
    (n : ℕ) (mem : Memory) (addr i : ℕ) (r : Region)
    → IsMemory mem
    → find_region mem.regions addr ≡ some (i, r)
    → (read_word n mem addr ≡ none) ↔ (r.base + r.size < addr + n)
read_word-straddling n mem addr i r m found = (faults, past_end)
  where
    low : r.base ≤ addr
    low = contains-base r addr (find_region-found mem.regions addr i r found).1

    high : addr < r.base + r.size
    high =
        contains-end r addr (found-IsRegion mem addr i r m found).size_fits
          (find_region-found mem.regions addr i r found).1

    buffer : length r.bytes ≡ r.size
    buffer = (found-IsRegion mem addr i r m found).buffer

    past_end : r.base + r.size < addr + n → read_word n mem addr ≡ none
    past_end h =
        read_word-mapped n mem addr i r found
        ∙ load-fault n r.bytes (addr - r.base) (omega (arith, buffer, low, high))
            (omega (arith, buffer, low, high))

    faults : read_word n mem addr ≡ none → r.base + r.size < addr + n
    faults h = elim (dec_lt (r.base + r.size) (addr + n)) [
      | yes p ↦ p
      | no p ↦
          let (v, e) = load_total n r.bytes (addr - r.base) (omega (arith, buffer, low, high)) in
          absurd (cc (read_word-mapped n mem addr i r found))
    ]
