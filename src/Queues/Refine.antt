-- ===== src/Queues/Refine.antt =====
-- The queues of Sources/Core/wg_engine.c as lists: what is taken out of them.
use mathlib.Core.Path.{subst}
use wine_glass.Base.{
  ℕ, zero, suc, ◌+◌, ◌-◌, ◌%◌, ◌≤◌, ◌<◌, ◌≡◌, refl, sym, ap, ◌∙◌, true, false, Option, none, some,
  List, [], ◌∷◌, ◌==◌, if◌then◌else◌, Bool-cases, inl, inr, set, get_elem?, length, length-set,
  get_elem?-set_self, get_elem?-set_ne, arith,
}
use wine_glass.Base.Fault.{◌>>=◌}
use wine_glass.Queues.{
  Ring, Completion, ThreadMsg, next_of, iocp_get, shift_down, pop_from, tmsg_pop,
}
use wine_glass.Queues.Holding.{Holds, IsQueue, SameOutside, Holds-frame, SameOutside-set}

abbrev pub rest_of : List Completion → List Completion × Option Completion
rest_of [] = ([], none)
rest_of (c ∷ xs) = (xs, some c)

-- A ring that holds a list of completions gives the first of them, or none where there is none, and
-- holds the others after that; it never faults.
pub iocp_get-IsQueue :
    (r : Ring Completion) (xs : List Completion)
    → IsQueue r xs
    → (r' : Ring Completion) × (iocp_get r ≡ some (r', (rest_of xs).1)) × IsQueue r' (rest_of xs).0
unfolding iocp_get
iocp_get-IsQueue r [] v =
    let e : (r.head == r.tail) ≡ true = ground (arith, v.tail_there, v.head_fits) in
    (r, rw e refl, v)
iocp_get-IsQueue r (c ∷ xs) v =
    let e : (r.head == r.tail) ≡ false = ground (arith, v.tail_there, v.head_fits, v.short) in
    (
      record r { head = next_of r.head },
      rw (e, v.held.0) refl,
      record {
        full = v.full;
        head_fits = omega arith;
        tail_there = omega (arith, v.tail_there, v.head_fits);
        short = omega (arith, v.short);
        held = v.held.1;
      },
    )

-- The messages without the first one of a thread, and that one.
abbrev pub keep_first :
    ThreadMsg → List ThreadMsg × Option ThreadMsg → List ThreadMsg × Option ThreadMsg
keep_first m (xs, found) = (m ∷ xs, found)

unfoldable pub remove_first : ℕ → List ThreadMsg → List ThreadMsg × Option ThreadMsg
remove_first tid [] = ([], none)
remove_first tid (m ∷ xs) =
    let later = keep_first m (remove_first tid xs) in if m.tid == tid then (xs, some m) else later

record Shifted (slots slots' : List ThreadMsg) (j : ℕ) (xs : List ThreadMsg) : Type 0 where
  full : length slots' ≡ 64
  held : Holds slots' j xs
  same : SameOutside slots slots' j (length xs)

shift_down-Shifted :
    (fuel : ℕ) (slots : List ThreadMsg) (tail j : ℕ) (x : ThreadMsg) (xs : List ThreadMsg)
    → length slots ≡ 64
    → j < 64
    → tail ≡ (j + 1 + length xs) % 64
    → length xs < fuel
    → length xs < 63
    → Holds slots j (x ∷ xs)
    → (slots' : List ThreadMsg) × (shift_down fuel slots tail j ≡ some slots')
      × Shifted slots slots' j xs
unfolding shift_down
shift_down-Shifted zero slots tail j x xs full l at enough short h = absurd (omega (arith, enough))
shift_down-Shifted (suc fuel) slots tail j x [] full l at enough short h =
    let e : (next_of j == tail) ≡ true = ground (arith, at) in
    (slots, rw (e, shift_down) refl, record { full = full; held = tt; same = λ q m far. refl })
shift_down-Shifted (suc fuel) slots tail j x (y ∷ ys) full l at enough short h =
    let e : (next_of j == tail) ≡ false = ground (arith, at, short, l) in
    let slots1 = set slots j y in
    let moved : Holds slots1 (next_of j) (y ∷ ys) =
      Holds-frame slots slots1 j 1 (next_of j) (y ∷ ys) l (omega arith)
        (SameOutside-set slots j y l) (omega (arith, l)) (omega (arith, l, short)) h.1 in
    let (slots', f, s) =
      shift_down-Shifted fuel slots1 tail (next_of j) y ys (length-set slots j y ∙ full)
        (omega arith) (omega (arith, at, l)) (omega (arith, enough)) (omega (arith, short)) moved in
    (
      slots',
      rw (e, h.1.0, shift_down) f,
      record {
        full = s.full;
        held = (
          s.same j l (omega (arith, l, short))
              ∙ get_elem?-set_self slots j y (omega (arith, l, full)),
          s.held,
        );
        same = λ q m far.
            s.same q m (omega (arith, far, l, m, short))
            ∙ get_elem?-set_ne slots j q y (λ k. omega (arith, far, l, m, k));
      },
    )

record Popped (r r' : Ring ThreadMsg) (i : ℕ) (xs ys : List ThreadMsg) : Type 0 where
  full : length r'.slots ≡ 64
  same_head : r'.head ≡ r.head
  tail_there : r'.tail ≡ (i + length ys) % 64
  fewer : length ys ≤ length xs
  held : Holds r'.slots i ys
  same : SameOutside r.slots r'.slots i (length xs)

found_later : (x : ThreadMsg) (p : List ThreadMsg × Option ThreadMsg) → p.1 ≡ (keep_first x p).1
found_later x (xs, found) = refl

Popped-later :
    (r r' : Ring ThreadMsg) (i : ℕ) (x : ThreadMsg) (xs : List ThreadMsg)
    (p : List ThreadMsg × Option ThreadMsg)
    → i < 64
    → length (x ∷ xs) < 64
    → get_elem? r.slots i ≡ some x
    → Popped r r' (next_of i) xs p.0
    → Popped r r' i (x ∷ xs) (keep_first x p).0
Popped-later r r' i x xs (ys, found) l short h p = record {
  full = p.full;
  same_head = p.same_head;
  tail_there = omega (arith, p.tail_there, l);
  fewer = omega (arith, p.fewer);
  held = (p.same i l (omega (arith, l, short)) ∙ h, p.held);
  same = λ q m far. p.same q m (omega (arith, far, l, m, short));
}

module _ (tid : ℕ) where
  pop_matched :
      (fuel : ℕ) (r : Ring ThreadMsg) (i : ℕ) (x : ThreadMsg) (slots : List ThreadMsg)
      → (i == r.tail) ≡ false
      → get_elem? r.slots i ≡ some x
      → (x.tid == tid) ≡ true
      → shift_down 64 r.slots r.tail i ≡ some slots
      → pop_from (suc fuel) r tid i
        ≡ some (record r { slots = slots; tail = (r.tail + 64 - 1) % 64 }, some x)
  unfolding pop_from
  pop_matched fuel r i x slots e h t f = rw (e, pop_from) (rw h (rw (t, ◌>>=◌) (rw f refl)))

  pop_passed :
      (fuel : ℕ) (r : Ring ThreadMsg) (i : ℕ) (x : ThreadMsg)
      → (i == r.tail) ≡ false
      → get_elem? r.slots i ≡ some x
      → (x.tid == tid) ≡ false
      → pop_from (suc fuel) r tid i ≡ pop_from fuel r tid (next_of i)
  unfolding pop_from
  pop_passed fuel r i x e h t = rw (e, pop_from) (rw h (rw (t, ◌>>=◌) refl))

  pop_from-Popped :
      (fuel : ℕ) (r : Ring ThreadMsg) (i : ℕ) (xs : List ThreadMsg)
      → length r.slots ≡ 64
      → i < 64
      → r.tail ≡ (i + length xs) % 64
      → length xs < fuel
      → length xs < 64
      → Holds r.slots i xs
      → (r' : Ring ThreadMsg) × (pop_from fuel r tid i ≡ some (r', (remove_first tid xs).1))
        × Popped r r' i xs (remove_first tid xs).0
  unfolding pop_from remove_first
  pop_from-Popped zero r i xs full l at enough short h = absurd (omega (arith, enough))
  pop_from-Popped (suc fuel) r i [] full l at enough short h =
      let e : (i == r.tail) ≡ true = ground (arith, at, l) in
      (
        r,
        rw (e, pop_from) refl,
        record {
          full = full;
          same_head = refl;
          tail_there = at;
          fewer = omega arith;
          held = tt;
          same = λ q m far. refl;
        },
      )
  pop_from-Popped (suc fuel) r i (x ∷ xs) full l at enough short h =
      let e : (i == r.tail) ≡ false = ground (arith, at, l, short) in
      elim (Bool-cases (x.tid == tid)) [
        | inl t ↦
            let (slots', f, s) =
              shift_down-Shifted 64 r.slots r.tail i x xs full l (omega (arith, at, l))
                (omega (arith, short)) (omega (arith, short)) h in
            (
              record r { slots = slots'; tail = (r.tail + 64 - 1) % 64 },
              pop_matched fuel r i x slots' e h.0 t f ∙ rw (t, remove_first) refl,
              rw (t, remove_first)
                  (record {
                    full = s.full;
                    same_head = refl;
                    tail_there = omega (arith, at, l);
                    fewer = omega arith;
                    held = s.held;
                    same = λ q m far. s.same q m (omega (arith, far));
                  }),
            )
        | inr t ↦
            let (r', f, p) =
              pop_from-Popped fuel r (next_of i) xs full (omega arith) (omega (arith, at, l))
                (omega (arith, enough)) (omega (arith, short)) h.1 in
            (
              r',
              rw (t, remove_first)
                  (pop_passed fuel r i x e h.0 t
                    ∙ f
                    ∙ ap (λ (m : Option ThreadMsg). some (r', m))
                        (found_later x (remove_first tid xs))),
              rw (t, remove_first) (Popped-later r r' i x xs (remove_first tid xs) l short h.0 p),
            )
      ]

  -- A ring that holds a list of thread messages, from which the first message of a thread is taken:
  -- the loops end without a fault, the answer is that message or none, and the ring holds the other
  -- messages in their order.
  pub tmsg_pop-IsQueue :
      (r : Ring ThreadMsg) (xs : List ThreadMsg)
      → IsQueue r xs
      → (r' : Ring ThreadMsg) × (tmsg_pop r tid ≡ some (r', (remove_first tid xs).1))
        × IsQueue r' (remove_first tid xs).0
  unfolding tmsg_pop
  tmsg_pop-IsQueue r xs v =
      let (r', e, p) =
        pop_from-Popped 64 r r.head xs v.full v.head_fits v.tail_there v.short v.short v.held in
      (
        r',
        e,
        record {
          full = p.full;
          head_fits = omega (arith, p.same_head, v.head_fits);
          tail_there =
              p.tail_there
              ∙ ap (λ (n : ℕ). (n + length (remove_first tid xs).0) % 64) (sym p.same_head);
          short = omega (arith, p.fewer, v.short);
          held = subst (λ n. Holds r'.slots n (remove_first tid xs).0) (sym p.same_head) p.held;
        },
      )
