-- ===== src/Windows/Valid.antt =====
-- The invariant of the table of Sources/Win32/wg_win32_windows.c: handles are numbered by their slots.
use wine_glass.Base.{ℕ, zero, suc, ◌+◌, ◌≤◌, ◌<◌, ◌≡◌, [], ◌∷◌, List, arith, length, set}
use wine_glass.Windows.Types.{Window, WindowManager, hwnd_base}

-- The first `n` slots hold the handles from `b` on.
abbrev pub Numbered : ℕ → ℕ → List Window → Type 0
Numbered b zero ws = Unit
Numbered b (suc n) [] = ⊥
Numbered b (suc n) (w ∷ ws) = (w.handle ≡ b) × Numbered (b + 1) n ws

pub record IsManager (wm : WindowManager) : Type 0 where
  pub slots : length wm.windows ≡ 64
  pub fits : wm.count ≤ 64
  pub next : wm.next_handle ≡ hwnd_base + wm.count
  pub numbered : Numbered hwnd_base wm.count wm.windows

pub Numbered-set :
    (b n : ℕ) (ws : List Window) (i : ℕ) (w : Window)
    → Numbered b n ws
    → w.handle ≡ b + i
    → Numbered b n (set ws i w)
Numbered-set b zero ws i w v e = tt
Numbered-set b (suc n) [] i w v e = v
Numbered-set b (suc n) (x ∷ ws) zero w v e = (omega (arith, e), v.1)
Numbered-set b (suc n) (x ∷ ws) (suc i) w v e =
    (v.0, Numbered-set (b + 1) n ws i w v.1 (omega (arith, e)))

pub Numbered-extend :
    (b n : ℕ) (ws : List Window) (w : Window)
    → Numbered b n ws
    → n < length ws
    → w.handle ≡ b + n
    → Numbered b (suc n) (set ws n w)
Numbered-extend b zero [] w v h e = absurd (omega arith)
Numbered-extend b zero (x ∷ ws) w v h e = (omega (arith, e), tt)
Numbered-extend b (suc n) [] w v h e = absurd (omega arith)
Numbered-extend b (suc n) (x ∷ ws) w v h e =
    (v.0, Numbered-extend (b + 1) n ws w v.1 (omega arith) (omega (arith, e)))
