-- ===== src/Gdi/Rect.antt =====
-- What `wg_gdi_fill_rect` of Sources/Win32/wg_win32_gdi.c does to the window of a context.
use wine_glass.Base.{
  ℕ, zero, suc, ◌+◌, ◌-◌, ◌*◌, ◌^◌, ◌≤◌, ◌<◌, ◌≡◌, ◌⊎◌, refl, Bool, true, false, ◌&&◌, ◌||◌, some,
  List, ltb, leb, if◌then◌else◌, Bool-cases, inl, inr, set, get_elem?, length, set-set_self, arith,
}
use native.Mathlib.Nat.{mul_comm}
use wine_glass.Base.Fault.{◌>>=◌}
use wine_glass.Bitmaps.{copy_row}
use wine_glass.Windows.Types.{Window, WindowManager, hwnd_base}
use wine_glass.Windows
use wine_glass.Windows.{with_client, get_client}
use wine_glass.Windows.Valid.{IsManager}
use wine_glass.Windows.Lookup.{find_first-Found, find_first-set}
use wine_glass.Windows.Matches.{wm_get_ready, with_client_kept}
use wine_glass.Gdi.Types.{Dc, Gdi}
use wine_glass.Gdi.{cut_low, cut_high, fill_rows, fill_buffer, find_dc, fill_rect, colorref_to_rgba}
use wine_glass.Gdi.Fill.{RowsFilled, fill_rows-RowsFilled}

-- `l <= x && x < r` of `int32_t`, for a coordinate `x` of a buffer.
abbrev pub between : ℕ → ℕ → ℕ → Bool
between l r x = (leb (2 ^ 31) l || leb l x) && (ltb r (2 ^ 31) && ltb x r)

fill_rows-empty : (rgba w l n y : ℕ) (fb : List ℕ) → fill_rows rgba w l 0 n y fb ≡ some fb
unfolding fill_rows copy_row
fill_rows-empty rgba w l zero y fb = refl
fill_rows-empty rgba w l (suc n) y fb = fill_rows-empty rgba w l n (y + 1) fb

-- The buffer holds `h` rows of `w` pixels, and after the fill those of the rectangle have the colour.
pub record IsFilled (rgba w h l t r b : ℕ) (fb fb' : List ℕ) : Type 0 where
  pub same_length : length fb' ≡ length fb
  pub words :
      (x y : ℕ)
      → x < w
      → y < h
      → get_elem? fb' (y * w + x)
        ≡ (if between l r x && between t b y then some rgba else get_elem? fb (y * w + x))

module _ (rgba w h l t r b : ℕ) (fb : List ℕ) (size : length fb ≡ w * h) where
  IsFilled-from :
      (fb' : List ℕ)
      → RowsFilled rgba w
          (cut_low l)
          (cut_high r w - cut_low l)
          (cut_high b h - cut_low t)
          (cut_low t)
          fb
          fb'
      → IsFilled rgba w h l t r b fb fb'
  IsFilled-from fb' v = record {
    same_length = v.same_length;
    words = λ x y m n. elim (Bool-cases (between l r x)) [
      | inl e ↦ elim (Bool-cases (between t b y)) [
        | inl f ↦
            rw (e, f)
              (v.inner y x (ground (arith, n)) (ground (arith, n)) (ground (arith, m))
                (ground (arith, m)))
        | inr f ↦ rw (e, f) (v.outer y x m (inl (below_or_above y n f)))
      ]
      | inr e ↦ rw e (v.outer y x m (inr (left_or_right x m e)))
    ];
  }
    where
      below_or_above :
          (y : ℕ)
          → y < h
          → between t b y ≡ false
          → (y < cut_low t) ⊎ (cut_low t + (cut_high b h - cut_low t) ≤ y)
      below_or_above y n f = elim (Bool-cases (ltb y (cut_low t))) [
        | inl k ↦ inl (ground arith)
        | inr k ↦ inr (ground (arith, n))
      ]

      left_or_right :
          (x : ℕ)
          → x < w
          → between l r x ≡ false
          → (x < cut_low l) ⊎ (cut_low l + (cut_high r w - cut_low l) ≤ x)
      left_or_right x n f = elim (Bool-cases (ltb x (cut_low l))) [
        | inl k ↦ inl (ground arith)
        | inr k ↦ inr (ground (arith, n))
      ]

  nothing_in :
      ((x y : ℕ) → x < w → y < h → (between l r x && between t b y) ≡ false)
      → IsFilled rgba w h l t r b fb fb
  nothing_in none_in = record { same_length = refl; words = λ x y m n. rw (none_in x y m n) refl }

  fill_buffer-IsFilled :
      (fb' : List ℕ) × (fill_buffer rgba w h l t r b fb ≡ some fb')
      × IsFilled rgba w h l t r b fb fb'
  unfolding fill_buffer fill_rows
  fill_buffer-IsFilled = elim (Bool-cases (ltb w (cut_low l))) [
    | inl right ↦
        let no_cols : cut_high r w - cut_low l ≡ 0 = ground arith in
        (
          fb,
          rw no_cols (fill_rows-empty rgba w (cut_low l) (cut_high b h - cut_low t) (cut_low t) fb),
          nothing_in (λ x y m n. ground (arith, m)),
        )
    | inr left ↦ elim (Bool-cases (ltb h (cut_low t))) [
      | inl below ↦
          let no_rows : cut_high b h - cut_low t ≡ 0 = ground arith in
          (fb, rw no_rows refl, nothing_in (λ x y m n. ground (arith, n)))
      | inr above ↦
          let (fb', e, v) =
            fill_rows-RowsFilled rgba w (cut_low l) (cut_high r w - cut_low l) (ground arith) h
              (cut_high b h - cut_low t) (cut_low t) fb (ground arith)
              (omega (arith, size, mul_comm w h)) in
          (fb', e, IsFilled-from fb' v)
    ]
  ]

-- The buffer of a window has the size that it says.
abbrev pub HasBuffer : Window → List ℕ → Type 0
HasBuffer win fb = (win.client ≡ some fb) × (length fb ≡ win.client_w * win.client_h)

module _ (malloc : ℕ → Bool) (g : Gdi) (wm : WindowManager) (hdc l t r b cr j i : ℕ) (dc : Dc)
    (win win' : Window) (fb : List ℕ) (v : IsManager wm) (context : find_dc g hdc ≡ some (j, dc))
    (found : Windows.find wm dc.hwnd ≡ some (i, win))
    (made : with_client malloc win ≡ some (some win')) (buffer : HasBuffer win' fb) where
  abbrev redrawn : List ℕ → WindowManager
  redrawn fb' = record wm {
    windows = set wm.windows i (record win' { client = some fb'; client_dirty = true });
  }

  got_client :
      get_client malloc wm dc.hwnd
      ≡ some
          (record wm { windows = set wm.windows i win' }, some (fb, win'.client_w, win'.client_h))
  unfolding get_client
  got_client = rw (wm_get_ready wm v, found) (rw (made, ◌>>=◌) (rw buffer.0 refl))

  found_again :
      Windows.find (record wm { windows = set wm.windows i win' }) dc.hwnd ≡ some (i, win')
  found_again =
      find_first-set wm.count wm.windows dc.hwnd i win win' found
        (with_client_kept malloc win win' made).0
        ((with_client_kept malloc win win' made).1
          (find_first-Found hwnd_base wm.count wm.windows dc.hwnd i win v.numbered found).lives)

  -- In a valid table, a fill through a context whose window is found, and has or gets a buffer of
  -- the size that it says, succeeds and changes that window's slot only: exactly the pixels inside
  -- both the rectangle and the buffer get the colour, and the window is dirty.
  pub fill_rect-IsFilled :
      (fb' : List ℕ) × (fill_rect malloc g wm hdc l t r b cr ≡ some (redrawn fb'))
      × IsFilled (colorref_to_rgba cr) win'.client_w win'.client_h l t r b fb fb'
  unfolding fill_rect
  fill_rect-IsFilled =
      let (fb', e, filled) =
        fill_buffer-IsFilled (colorref_to_rgba cr) win'.client_w win'.client_h l t r b fb
          buffer.1 in
      (fb', rw (context, got_client) (rw (e, found_again, set-set_self) refl), filled)
