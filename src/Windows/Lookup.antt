-- ===== src/Windows/Lookup.antt =====
-- What `wg_wm_find` of Sources/Win32/wg_win32_windows.c finds: the live window with a handle.
use mathlib.Core.Option.{some-injective}
use wine_glass.Base.{
  ℕ, zero, suc, ◌+◌, ◌<◌, ◌≡◌, refl, ap, [], ◌∷◌, List, arith, length, set, get_elem?, Option, none,
  some, true, false, ◌&&◌, ◌==◌, if◌then◌else◌, Bool-cases, inl, inr,
}
use wine_glass.Windows.Types.{Window}
use wine_glass.Windows.{find_first, next_slot}
use wine_glass.Windows.Valid.{Numbered}

abbrev pub window_of : Option (ℕ × Window) → Option Window
window_of none = none
window_of (some (i, w)) = some w

-- The window of a handle, as the callers see it.
unfoldable pub look : ℕ → List Window → ℕ → Option Window
look n ws hwnd = window_of (find_first n ws hwnd)

abbrev pub if_alive : Window → Option Window
if_alive w = if w.alive then some w else none

window_of-next_slot : (r : Option (ℕ × Window)) → window_of (next_slot r) ≡ window_of r
window_of-next_slot none = refl
window_of-next_slot (some (i, w)) = refl

pub look-cons :
    (n : ℕ) (w : Window) (ws : List Window) (hwnd : ℕ)
    → look (suc n) (w ∷ ws) hwnd
      ≡ (if (w.handle == hwnd) && w.alive then some w else look n ws hwnd)
unfolding look find_first
look-cons n w ws hwnd = elim (Bool-cases ((w.handle == hwnd) && w.alive)) [
  | inl e ↦ rw e refl
  | inr e ↦ rw e (window_of-next_slot (find_first n ws hwnd))
]

pub look-below :
    (b n : ℕ) (ws : List Window) (hwnd : ℕ) → Numbered b n ws → hwnd < b → look n ws hwnd ≡ none
unfolding look find_first
look-below b zero ws hwnd v h = refl
look-below b (suc n) [] hwnd v h = refl
look-below b (suc n) (w ∷ ws) hwnd v h =
    ground (arith, look-cons n w ws hwnd, look-below (b + 1) n ws hwnd v.1)

-- A write to a numbered slot changes what its handle finds, and nothing else.
pub look-set :
    (b n : ℕ) (ws : List Window) (i : ℕ) (w : Window) (hwnd : ℕ)
    → Numbered b n ws
    → i < n
    → w.handle ≡ b + i
    → look n (set ws i w) hwnd ≡ (if hwnd == w.handle then if_alive w else look n ws hwnd)
look-set b zero ws i w hwnd v h e = absurd (omega arith)
look-set b (suc n) [] i w hwnd v h e = absurd v
look-set b (suc n) (x ∷ ws) zero w hwnd v h e =
    ground (arith, look-cons n w ws hwnd, look-cons n x ws hwnd, look-below (b + 1) n ws hwnd v.1)
look-set b (suc n) (x ∷ ws) (suc i) w hwnd v h e = ground (
  arith,
  look-cons n x ws hwnd,
  look-cons n x (set ws i w) hwnd,
  look-set (b + 1) n ws i w hwnd v.1,
)

-- The same for the first slot behind the numbered ones.
pub look-extend :
    (b n : ℕ) (ws : List Window) (w : Window) (hwnd : ℕ)
    → Numbered b n ws
    → n < length ws
    → w.handle ≡ b + n
    → look (suc n) (set ws n w) hwnd ≡ (if hwnd == w.handle then if_alive w else look n ws hwnd)
unfolding look find_first
look-extend b zero [] w hwnd v h e = absurd (omega arith)
look-extend b zero (x ∷ ws) w hwnd v h e = ground arith
look-extend b (suc n) [] w hwnd v h e = absurd v
look-extend b (suc n) (x ∷ ws) w hwnd v h e = ground (
  arith,
  look-cons n x ws hwnd,
  look-cons (suc n) x (set ws n w) hwnd,
  look-extend (b + 1) n ws w hwnd v.1,
)

pub record Found (n : ℕ) (ws : List Window) (hwnd b i : ℕ) (w : Window) : Type 0 where
  pub below : i < n
  pub slot : get_elem? ws i ≡ some w
  pub same : w.handle ≡ hwnd
  pub here : w.handle ≡ b + i
  pub lives : w.alive ≡ true

Found-first :
    (b n : ℕ) (x : Window) (ws : List Window) (hwnd i : ℕ) (w : Window)
    → x.handle ≡ b
    → ◌≡◌ {A = ℕ × Window} (0, x) (i, w)
    → ((x.handle == hwnd) && x.alive) ≡ true
    → Found (suc n) (x ∷ ws) hwnd b i w
Found-first b n x ws hwnd i w v e t =
    let at : 0 ≡ i = ap (λ (p : ℕ × Window). p.0) e in
    let is : x ≡ w = ap (λ (p : ℕ × Window). p.1) e in
    rw (← at, ← is)
      (record {
        below = omega arith;
        slot = refl;
        same = ground arith;
        here = omega (arith, v);
        lives = ground arith;
      })

Found-later :
    (b n : ℕ) (x : Window) (ws : List Window) (hwnd i : ℕ) (w : Window) (r : Option (ℕ × Window))
    → ((j : ℕ) (u : Window) → r ≡ some (j, u) → Found n ws hwnd (b + 1) j u)
    → next_slot r ≡ some (i, w)
    → Found (suc n) (x ∷ ws) hwnd b i w
Found-later b n x ws hwnd i w none found k = absurd (ground arith)
Found-later b n x ws hwnd i w (some (j, u)) found k =
    let at : suc j ≡ i = ap (λ (p : ℕ × Window). p.0) (some-injective _ _ k) in
    let is : u ≡ w = ap (λ (p : ℕ × Window). p.1) (some-injective _ _ k) in
    let f = found j u refl in
    rw (← at, ← is)
      (record {
        below = omega (arith, f.below);
        slot = f.slot;
        same = f.same;
        here = omega (arith, f.here);
        lives = f.lives;
      })

pub find_first-Found :
    (b n : ℕ) (ws : List Window) (hwnd i : ℕ) (w : Window)
    → Numbered b n ws
    → find_first n ws hwnd ≡ some (i, w)
    → Found n ws hwnd b i w
unfolding find_first
find_first-Found b zero ws hwnd i w v h = absurd (ground arith)
find_first-Found b (suc n) [] hwnd i w v h = absurd v
find_first-Found b (suc n) (x ∷ ws) hwnd i w v h =
    elim (Bool-cases ((x.handle == hwnd) && x.alive)) [
      | inl e ↦ Found-first b n x ws hwnd i w v.0 (some-injective _ _ (rw (e, find_first) at h)) e
      | inr e ↦
          Found-later b n x ws hwnd i w (find_first n ws hwnd)
            (λ j u r. find_first-Found (b + 1) n ws hwnd j u v.1 r) (rw (e, find_first) at h)
    ]

set_later :
    (n : ℕ) (x : Window) (ws : List Window) (hwnd i : ℕ) (w w' : Window) (r : Option (ℕ × Window))
    → ((x.handle == hwnd) && x.alive) ≡ false
    → ((j : ℕ) → r ≡ some (j, w) → find_first n (set ws j w') hwnd ≡ some (j, w'))
    → next_slot r ≡ some (i, w)
    → find_first (suc n) (set (x ∷ ws) i w') hwnd ≡ some (i, w')
unfolding find_first
set_later n x ws hwnd i w w' none t same k = absurd (ground arith)
set_later n x ws hwnd i w w' (some (j, u)) t same k =
    let at : suc j ≡ i = ap (λ (p : ℕ × Window). p.0) (some-injective _ _ k) in
    let is : u ≡ w = ap (λ (p : ℕ × Window). p.1) (some-injective _ _ k) in
    rw (← at) (rw (t, same j (ap (λ (v : Window). some (j, v)) is)) refl)

-- A window that was found and is changed in its slot, alive and with its handle, is found there.
pub find_first-set :
    (n : ℕ) (ws : List Window) (hwnd i : ℕ) (w w' : Window)
    → find_first n ws hwnd ≡ some (i, w)
    → w'.handle ≡ w.handle
    → w'.alive ≡ true
    → find_first n (set ws i w') hwnd ≡ some (i, w')
unfolding find_first
find_first-set zero ws hwnd i w w' f kept lives = absurd (ground arith)
find_first-set (suc n) [] hwnd i w w' f kept lives = absurd (ground arith)
find_first-set (suc n) (x ∷ ws) hwnd i w w' f kept lives =
    elim (Bool-cases ((x.handle == hwnd) && x.alive)) [
      | inl t ↦
          let same : ◌≡◌ {A = ℕ × Window} (0, x) (i, w) =
            some-injective _ _ (rw (t, find_first) at f) in
          let at : 0 ≡ i = ap (λ (p : ℕ × Window). p.0) same in
          let is : x.handle ≡ w.handle = ap (λ (p : ℕ × Window). p.1.handle) same in
          let found : ((w'.handle == hwnd) && w'.alive) ≡ true = ground (arith, kept, is, lives) in
          rw (← at) (rw found refl)
      | inr t ↦
          set_later n x ws hwnd i w w' (find_first n ws hwnd) t
            (λ j e. find_first-set n ws hwnd j w w' e kept lives) (rw (t, find_first) at f)
    ]
