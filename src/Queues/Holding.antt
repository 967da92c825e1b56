-- ===== src/Queues/Holding.antt =====
-- What a ring buffer of Sources/Core/wg_engine.c holds: a list, around the array.
use wine_glass.Base.{
  ℕ, ◌+◌, ◌-◌, ◌%◌, ◌≤◌, ◌<◌, ◌≡◌, sym, ap, ◌∙◌, false, some, List, [], ◌∷◌, ◌++◌, ltb, lt→ltb,
  ◌==◌, if◌then◌else◌, ==_iff, Bool-cases, inl, inr, set, get_elem?, length, length-set,
  length-append, get_elem?-set_self, get_elem?-set_ne, arith,
}
use wine_glass.Queues.{Ring, next_of, push}

-- How far slot `q` lies behind slot `p`.
abbrev pub behind : ℕ → ℕ → ℕ
behind p q = (q + 64 - p) % 64

module _ {A : Type 0} where
  -- The list stands in the slots from `p` on.
  abbrev pub Holds : List A → ℕ → List A → Type 0
  Holds slots p [] = Unit
  Holds slots p (x ∷ xs) = (get_elem? slots p ≡ some x) × Holds slots (next_of p) xs

  pub record IsQueue (r : Ring A) (xs : List A) : Type 0 where
    pub full : length r.slots ≡ 64
    pub head_fits : r.head < 64
    pub tail_there : r.tail ≡ (r.head + length xs) % 64
    pub short : length xs < 64
    pub held : Holds r.slots r.head xs

  -- Slots changed only among the `n` from `p` on.
  abbrev pub SameOutside : List A → List A → ℕ → ℕ → Type 0
  SameOutside slots slots' p n =
      (q : ℕ) → q < 64 → n ≤ behind p q → get_elem? slots' q ≡ get_elem? slots q

  pub Holds-frame :
      (slots slots' : List A) (p n q : ℕ) (xs : List A)
      → p < 64
      → q < 64
      → SameOutside slots slots' p n
      → n ≤ behind p q
      → behind p q + length xs ≤ 64
      → Holds slots q xs
      → Holds slots' q xs
  Holds-frame slots slots' p n q [] l m same far fits h = tt
  Holds-frame slots slots' p n q (x ∷ []) l m same far fits h = (same q m far ∙ h.0, tt)
  Holds-frame slots slots' p n q (x ∷ y ∷ xs) l m same far fits h = (
    same q m far ∙ h.0,
    Holds-frame slots slots' p n (next_of q) (y ∷ xs) l (omega arith) same
        (omega (arith, l, m, far, fits)) (omega (arith, l, m, far, fits)) h.1,
  )

  pub SameOutside-set :
      (slots : List A) (p : ℕ) (a : A) → p < 64 → SameOutside slots (set slots p a) p 1
  SameOutside-set slots p a l q m far =
      get_elem?-set_ne slots p q a (λ e. omega (arith, l, m, far, e))

  Holds-append :
      (slots : List A) (q : ℕ) (xs : List A) (a : A)
      → q < 64
      → Holds slots q xs
      → get_elem? slots ((q + length xs) % 64) ≡ some a
      → Holds slots q (xs ++ a ∷ [])
  Holds-append slots q [] a l h e =
      (ap (get_elem? slots) {y = (q + 0) % 64} (omega (arith, l)) ∙ e, tt)
  Holds-append slots q (x ∷ xs) a l h e = (
    h.0,
    Holds-append slots (next_of q) xs a (omega arith) h.1
        (ap (get_elem? slots) {y = (q + length (x ∷ xs)) % 64} (omega arith) ∙ e),
  )

  -- A push appends the item where there are fewer than 63, and drops it where there are 63.
  pub push-IsQueue :
      (r : Ring A) (xs : List A) (a : A)
      → IsQueue r xs
      → IsQueue (push r a) (if ltb (length xs) 63 then xs ++ a ∷ [] else xs)
  unfolding push
  push-IsQueue r xs a v = elim (Bool-cases (next_of r.tail == r.head)) [
    | inl e ↦
        let at : next_of r.tail ≡ r.head = (==_iff (next_of r.tail) r.head).0 e in
        let no_room : ltb (length xs) 63 ≡ false =
          ground (arith, v.tail_there, v.short, v.head_fits) in
        rw (e, no_room) v
    | inr e ↦
        let room : length xs < 63 = ground (arith, v.tail_there, v.short, v.head_fits) in
        rw (e, lt→ltb _ _ room) (pushed room)
  ]
    where
      kept :
          (ys : List A)
          → r.tail < 64
          → r.tail ≡ (r.head + length ys) % 64
          → length ys < 63
          → Holds r.slots r.head ys
          → Holds (set r.slots r.tail a) r.head ys
      kept [] at e room h = tt
      kept (y ∷ ys) at e room h =
          Holds-frame r.slots (set r.slots r.tail a) r.tail 1 r.head (y ∷ ys) at v.head_fits
            (SameOutside-set r.slots r.tail a at) (omega (arith, e, room, v.head_fits))
            (omega (arith, e, room, v.head_fits)) h

      pushed :
          length xs < 63
          → IsQueue
              (record r { slots = set r.slots r.tail a; tail = next_of r.tail })
              (xs ++ a ∷ [])
      pushed room =
          let at : r.tail < 64 = omega (arith, v.tail_there) in
          record {
            full = length-set r.slots r.tail a ∙ v.full;
            head_fits = v.head_fits;
            tail_there = omega (arith, length-append xs (a ∷ []), v.tail_there);
            short = omega (arith, length-append xs (a ∷ []), room);
            held =
                Holds-append (set r.slots r.tail a) r.head xs a v.head_fits
                  (kept xs at v.tail_there room v.held)
                  (ap (get_elem? (set r.slots r.tail a)) (sym v.tail_there)
                    ∙ get_elem?-set_self r.slots r.tail a (omega (arith, at, v.full)));
          }
