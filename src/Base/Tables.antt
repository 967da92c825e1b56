-- ===== src/Base/Tables.antt =====
-- C tables of slots that are in use or not and are found by a handle, as loops over an array do.
use Prim.Native.Nat.{ℕ, zero, suc, ◌≤◌, ◌<◌}
use mathlib.Core.Path.{◌≡◌, refl, ap}
use mathlib.Core.Logic.{inl, inr}
use mathlib.Core.Bool.{Bool, true, false, ◌&&◌}
use mathlib.Core.List.{List, [], ◌∷◌}
use mathlib.Core.Option.{Option, none, some, some-injective}
use native.Mathlib.Omega.{arith}
use wine_glass.Base.Tests.{◌==◌, if◌then◌else◌, Bool-cases}
use wine_glass.Base.Lists.{set, replicate}

module _ {A : Type 0} (used : A → Bool) (handle : A → ℕ) where
  abbrev pub next_found : Option (ℕ × A) → Option (ℕ × A)
  next_found none = none
  next_found (some (i, a)) = some (suc i, a)

  -- The first slot in use with the handle, and what stands there.
  unfoldable pub find_slot : List A → ℕ → Option (ℕ × A)
  find_slot [] h = none
  find_slot (a ∷ xs) h =
      let rest = next_found (find_slot xs h) in
      if used a && (handle a == h) then some (0, a) else rest

  -- The first slot that is not in use.
  unfoldable pub free_slot : List A → Option (ℕ × A)
  free_slot [] = none
  free_slot (a ∷ xs) = let rest = next_found (free_slot xs) in if used a then rest else some (0, a)

  abbrev pub held : Option (ℕ × A) → Option A
  held none = none
  held (some (i, a)) = some a

  -- What stands under a handle, without its slot.
  unfoldable pub lookup : List A → ℕ → Option A
  lookup xs h = held (find_slot xs h)

  -- Handles in use are below `n`, and no two slots in use have the same.
  abbrev pub Below : ℕ → List A → Type 0
  Below n [] = Unit
  Below n (a ∷ xs) = (used a ≡ true → handle a < n) × Below n xs

  abbrev pub Distinct : List A → Type 0
  Distinct [] = Unit
  Distinct (a ∷ xs) = (used a ≡ true → lookup xs (handle a) ≡ none) × Distinct xs

  -- Slot `i` is not in use; slot `i` is the first in use with the handle.
  abbrev pub FreeAt : List A → ℕ → Type 0
  FreeAt [] i = ⊥
  FreeAt (a ∷ xs) zero = used a ≡ false
  FreeAt (a ∷ xs) (suc i) = FreeAt xs i

  abbrev pub FoundAt : List A → ℕ → ℕ → A → Type 0
  FoundAt [] h i o = ⊥
  FoundAt (a ∷ xs) h zero o = (a ≡ o) × (used a ≡ true) × (handle a ≡ h)
  FoundAt (a ∷ xs) h (suc i) o = ((used a && (handle a == h)) ≡ false) × FoundAt xs h i o

  held-next_found : (r : Option (ℕ × A)) → held (next_found r) ≡ held r
  held-next_found none = refl
  held-next_found (some (i, a)) = refl

  pub lookup-cons :
      (a : A) (xs : List A) (h : ℕ)
      → lookup (a ∷ xs) h ≡ (if used a && (handle a == h) then some a else lookup xs h)
  unfolding lookup find_slot
  lookup-cons a xs h = elim (Bool-cases (used a && (handle a == h))) [
    | inl e ↦ rw e refl
    | inr e ↦ rw e (held-next_found (find_slot xs h))
  ]

  pub lookup-Below : (n : ℕ) (xs : List A) (h : ℕ) → Below n xs → n ≤ h → lookup xs h ≡ none
  unfolding lookup find_slot
  lookup-Below n [] h v le = refl
  lookup-Below n (a ∷ xs) h v le = ground (arith, lookup-cons a xs h, lookup-Below n xs h v.1 le)

  next-FreeAt :
      (a : A) (xs : List A) (r : Option (ℕ × A)) (i : ℕ) (o : A)
      → ((j : ℕ) → r ≡ some (j, o) → FreeAt xs j)
      → next_found r ≡ some (i, o)
      → FreeAt (a ∷ xs) i
  next-FreeAt a xs none i o free e = absurd cc
  next-FreeAt a xs (some (j, u)) i o free e =
      let at : suc j ≡ i = ap (λ (p : ℕ × A). p.0) (some-injective _ _ e) in
      let is : u ≡ o = ap (λ (p : ℕ × A). p.1) (some-injective _ _ e) in
      rw (← at) (free j (ap (λ (w : A). some (j, w)) is))

  pub free_slot-FreeAt : (xs : List A) (i : ℕ) (o : A) → free_slot xs ≡ some (i, o) → FreeAt xs i
  unfolding free_slot
  free_slot-FreeAt [] i o e = absurd cc
  free_slot-FreeAt (a ∷ xs) i o e = elim (Bool-cases (used a)) [
    | inl t ↦
        next-FreeAt a xs (free_slot xs) i o (λ j. free_slot-FreeAt xs j o) (rw (t, free_slot) at e)
    | inr t ↦
        let at : 0 ≡ i = ap (λ (p : ℕ × A). p.0) (some-injective _ _ (rw (t, free_slot) at e)) in
        rw (← at) t
  ]

  next-FoundAt :
      (a : A) (xs : List A) (h : ℕ) (r : Option (ℕ × A)) (i : ℕ) (o : A)
      → (used a && (handle a == h)) ≡ false
      → ((j : ℕ) → r ≡ some (j, o) → FoundAt xs h j o)
      → next_found r ≡ some (i, o)
      → FoundAt (a ∷ xs) h i o
  next-FoundAt a xs h none i o t found e = absurd cc
  next-FoundAt a xs h (some (j, u)) i o t found e =
      let at : suc j ≡ i = ap (λ (p : ℕ × A). p.0) (some-injective _ _ e) in
      let is : u ≡ o = ap (λ (p : ℕ × A). p.1) (some-injective _ _ e) in
      rw (← at) (t, found j (ap (λ (w : A). some (j, w)) is))

  pub find_slot-FoundAt :
      (xs : List A) (h i : ℕ) (o : A) → find_slot xs h ≡ some (i, o) → FoundAt xs h i o
  unfolding find_slot
  find_slot-FoundAt [] h i o e = absurd cc
  find_slot-FoundAt (a ∷ xs) h i o e = elim (Bool-cases (used a && (handle a == h))) [
    | inl t ↦
        let same : ◌≡◌ {A = ℕ × A} (0, a) (i, o) = some-injective _ _ (rw (t, find_slot) at e) in
        let at : 0 ≡ i = ap (λ (p : ℕ × A). p.0) same in
        rw (← at) (ap (λ (p : ℕ × A). p.1) same, ground arith, ground arith)
    | inr t ↦
        next-FoundAt a xs h (find_slot xs h) i o t (λ j. find_slot-FoundAt xs h j o)
          (rw (t, find_slot) at e)
  ]

  -- A new handle in a free slot is found, and the others as before.
  pub lookup-fill :
      (xs : List A) (i : ℕ) (new : A) (h : ℕ)
      → FreeAt xs i
      → used new ≡ true
      → lookup xs (handle new) ≡ none
      → lookup (set xs i new) h ≡ (if h == handle new then some new else lookup xs h)
  lookup-fill [] i new h f u none_yet = absurd f
  lookup-fill (a ∷ xs) zero new h f u none_yet =
      ground (arith, lookup-cons new xs h, lookup-cons a xs h, lookup-cons a xs (handle new))
  lookup-fill (a ∷ xs) (suc i) new h f u none_yet = ground (
    arith,
    lookup-cons a xs h,
    lookup-cons a xs (handle new),
    lookup-cons a (set xs i new) h,
    lookup-fill xs i new h f u,
  )

  -- A write to a slot that keeps its handle in use.
  pub lookup-update :
      (xs : List A) (h i : ℕ) (o new : A) (k : ℕ)
      → FoundAt xs h i o
      → used new ≡ true
      → handle new ≡ h
      → lookup (set xs i new) k ≡ (if k == h then some new else lookup xs k)
  lookup-update [] h i o new k f u e = absurd f
  lookup-update (a ∷ xs) h zero o new k f u e =
      ground (arith, lookup-cons new xs k, lookup-cons a xs k, f.1, f.2)
  lookup-update (a ∷ xs) h (suc i) o new k f u e = ground (
    arith,
    lookup-cons a xs k,
    lookup-cons a (set xs i new) k,
    lookup-update xs h i o new k f.1 u e,
    f.0,
  )

  -- A write that takes the slot out of use.
  pub lookup-clear :
      (xs : List A) (h i : ℕ) (o new : A) (k : ℕ)
      → Distinct xs
      → FoundAt xs h i o
      → used new ≡ false
      → lookup (set xs i new) k ≡ (if k == h then none else lookup xs k)
  lookup-clear [] h i o new k d f u = absurd f
  lookup-clear (a ∷ xs) h zero o new k d f u =
      ground (arith, lookup-cons new xs k, lookup-cons a xs k, f.1, f.2, d.0 f.1)
  lookup-clear (a ∷ xs) h (suc i) o new k d f u = ground (
    arith,
    lookup-cons a xs k,
    lookup-cons a (set xs i new) k,
    lookup-clear xs h i o new k d.1 f.1 u,
    f.0,
  )

  pub Below-set :
      (n : ℕ) (xs : List A) (i : ℕ) (new : A)
      → Below n xs
      → (used new ≡ true → handle new < n)
      → Below n (set xs i new)
  Below-set n [] i new v h = tt
  Below-set n (a ∷ xs) zero new v h = (h, v.1)
  Below-set n (a ∷ xs) (suc i) new v h = (v.0, Below-set n xs i new v.1 h)

  pub Below-more : (n m : ℕ) (xs : List A) → Below n xs → n ≤ m → Below m xs
  Below-more n m [] v h = tt
  Below-more n m (a ∷ xs) v h = (λ u. omega (arith, v.0 u, h), Below-more n m xs v.1 h)

  pub Distinct-fill :
      (xs : List A) (i : ℕ) (new : A)
      → Distinct xs
      → FreeAt xs i
      → used new ≡ true
      → lookup xs (handle new) ≡ none
      → Distinct (set xs i new)
  Distinct-fill [] i new d f u gone = tt
  Distinct-fill (a ∷ xs) zero new d f u gone =
      (λ t. ground (arith, lookup-cons a xs (handle new)), d.1)
  Distinct-fill (a ∷ xs) (suc i) new d f u gone =
      let tail : lookup xs (handle new) ≡ none = ground (arith, lookup-cons a xs (handle new)) in
      (
        λ t.
            ground (
              arith,
              lookup-cons a xs (handle new),
              lookup-fill xs i new (handle a) f u tail,
              d.0 t,
            ),
        Distinct-fill xs i new d.1 f u tail,
      )

  pub Distinct-update :
      (xs : List A) (h i : ℕ) (o new : A)
      → Distinct xs
      → FoundAt xs h i o
      → used new ≡ true
      → handle new ≡ h
      → Distinct (set xs i new)
  Distinct-update [] h i o new d f u e = tt
  Distinct-update (a ∷ xs) h zero o new d f u e = (λ t. rw (e, ← f.2) (d.0 f.1), d.1)
  Distinct-update (a ∷ xs) h (suc i) o new d f u e = (
    λ t. ground (arith, lookup-update xs h i o new (handle a) f.1 u e, d.0 t, f.0),
    Distinct-update xs h i o new d.1 f.1 u e,
  )

  pub Distinct-clear :
      (xs : List A) (h i : ℕ) (o new : A)
      → Distinct xs
      → FoundAt xs h i o
      → used new ≡ false
      → Distinct (set xs i new)
  Distinct-clear [] h i o new d f u = tt
  Distinct-clear (a ∷ xs) h zero o new d f u = (λ t. absurd cc, d.1)
  Distinct-clear (a ∷ xs) h (suc i) o new d f u = (
    λ t. ground (arith, lookup-clear xs h i o new (handle a) d.1 f.1 u, d.0 t),
    Distinct-clear xs h i o new d.1 f.1 u,
  )

  pub Below-replicate : (n k : ℕ) (a : A) → used a ≡ false → Below n (replicate k a)
  Below-replicate n zero a u = tt
  Below-replicate n (suc k) a u = (λ t. absurd cc, Below-replicate n k a u)

  pub Distinct-replicate : (k : ℕ) (a : A) → used a ≡ false → Distinct (replicate k a)
  Distinct-replicate zero a u = tt
  Distinct-replicate (suc k) a u = (λ t. absurd cc, Distinct-replicate k a u)
