-- ===== src/Memory/Slots.antt =====
-- `find_region` of wg_memory.c: what it finds, and that it looks at the bounds alone.
use mathlib.Core.Option.{some-injective}
use wine_glass.Base.{
  ℕ, zero, suc, ◌≡◌, refl, ap, sym, ◌∙◌, ◌⊎◌, inl, inr, Option, none, some, List, [], ◌∷◌, arith,
  get_elem?, set, true, ◌==◌, if◌then◌else◌, Bool-cases,
}
use wine_glass.Memory.{Region, contains, later_slot, find_region}

pub later_slot-some {ℓ} :
    {A : Type ℓ} (o : Option (ℕ × A)) {i : ℕ} {r : A}
    → later_slot o ≡ some (i, r)
    → (j : ℕ) × (i ≡ suc j) × (o ≡ some (j, r))
later_slot-some none h = cc
later_slot-some (some (j, r)) h = (j, ground arith, ground arith)

-- A search that ends in slot `i` ended at the head or in the tail.
find_region-cons :
    (x : Region) (rs : List Region) (addr : ℕ) {i : ℕ} {r : Region}
    → find_region (x ∷ rs) addr ≡ some (i, r)
    → ((i ≡ 0) × (r ≡ x) × (contains x addr ≡ true))
      ⊎ ((j : ℕ) × (i ≡ suc j) × (find_region rs addr ≡ some (j, r)))
unfolding find_region
find_region-cons x rs addr h = elim (Bool-cases (contains x addr)) [
  | inl hit ↦ inl (ground arith, ground arith, hit)
  | inr miss ↦ inr (later_slot-some (find_region rs addr) (ground arith))
]

-- The slot that is found holds the region, and the region holds the address.
pub find_region-found :
    (rs : List Region) (addr i : ℕ) (r : Region)
    → find_region rs addr ≡ some (i, r)
    → (get_elem? rs i ≡ some r) × (contains r addr ≡ true)
find_region-found [] addr i r h = unfold find_region in cc
find_region-found (x ∷ rs) addr i r h = elim (find_region-cons x rs addr h) [
  | inl (e, f, c) ↦ rw (e, f) (refl, c)
  | inr (j, e, f) ↦ rw e (find_region-found rs addr j r f)
]

-- Where a slot takes a region with the same bounds, the search ends in the same slot.
abbrev pub replaced : ℕ → Region → Option (ℕ × Region) → Option (ℕ × Region)
replaced i r none = none
replaced i r (some (j, s)) = if j == i then some (j, r) else some (j, s)

replaced-zero : (r : Region) (o : Option (ℕ × Region)) → replaced 0 r (later_slot o) ≡ later_slot o
replaced-zero r none = refl
replaced-zero r (some (j, s)) = ground arith

replaced-suc :
    (i : ℕ) (r : Region) (o : Option (ℕ × Region))
    → replaced (suc i) r (later_slot o) ≡ later_slot (replaced i r o)
replaced-suc i r none = refl
replaced-suc i r (some (j, s)) = ground arith

pub find_region-set :
    (rs : List Region) (addr i : ℕ) (r s : Region)
    → get_elem? rs i ≡ some r
    → contains s addr ≡ contains r addr
    → find_region (set rs i s) addr ≡ replaced i s (find_region rs addr)
unfolding find_region
find_region-set [] addr i r s h e = refl
find_region-set (x ∷ rs) addr zero r s h e =
    let same : contains x addr ≡ contains s addr =
      ap (λ y. contains y addr) (some-injective _ _ h) ∙ sym e in
    elim (Bool-cases (contains s addr)) [
      | inl hit ↦ rw (hit, same, hit)
      | inr miss ↦ rw (miss, same, miss) (sym (replaced-zero s (find_region rs addr)))
    ]
find_region-set (x ∷ rs) addr (suc i) r s h e = elim (Bool-cases (contains x addr)) [
  | inl hit ↦ rw hit (ground arith)
  | inr miss ↦
      rw (miss, find_region-set rs addr i r s h e) (sym (replaced-suc i s (find_region rs addr)))
]
