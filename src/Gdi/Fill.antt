-- ===== src/Gdi/Fill.antt =====
-- `wg_gdi_fill_rect` of Sources/Win32/wg_win32_gdi.c: exactly the pixels of the clipped rectangle.
use wine_glass.Base.{
  ℕ, zero, suc, ◌+◌, ◌-◌, ◌*◌, ◌≤◌, ◌<◌, ◌≡◌, ◌≢◌, ◌⊎◌, refl, ap, ◌∙◌, some, List, ltb, ltb→lt,
  ◌==◌, ==_iff, Bool-cases, inl, inr, get_elem?, length, arith,
}
use wine_glass.Bitmaps.Loops.{RowCopied, copy_row-RowCopied, row_fits}
use wine_glass.Gdi.{fill_rows}

-- After a fill of `n` rows from `y` on: the words of the rectangle, and all others of the `w` columns.
pub record RowsFilled (rgba w l cols n y : ℕ) (fb fb' : List ℕ) : Type 0 where
  pub same_length : length fb' ≡ length fb
  pub inner :
      (k x : ℕ) → y ≤ k → k < y + n → l ≤ x → x < l + cols → get_elem? fb' (k * w + x) ≡ some rgba
  pub outer :
      (k x : ℕ)
      → x < w
      → ((k < y) ⊎ (y + n ≤ k)) ⊎ ((x < l) ⊎ (l + cols ≤ x))
      → get_elem? fb' (k * w + x) ≡ get_elem? fb (k * w + x)

-- Outside the columns of row `y` nothing changes.
pub row_outside :
    (w l cols y k x : ℕ)
    → l + cols ≤ w
    → x < w
    → (k ≢ y) ⊎ ((x < l) ⊎ (l + cols ≤ x))
    → (k * w + x < y * w + l) ⊎ (y * w + (l + cols) ≤ k * w + x)
row_outside w l cols y k x fits m (inr (inl a)) = elim (Bool-cases (ltb y k)) [
  | inl below ↦ inr (omega (arith, fits, row_fits y k w (ltb→lt y k below)))
  | inr above ↦ elim (Bool-cases (k == y)) [
    | inl same ↦ let e : k ≡ y = (==_iff k y).0 same in rw e (inl (omega (arith, a)))
    | inr other ↦
        let lower : k < y = ground (arith, above, other) in
        inl (omega (arith, m, row_fits k y w lower))
  ]
]
row_outside w l cols y k x fits m (inr (inr b)) = elim (Bool-cases (ltb y k)) [
  | inl below ↦ inr (omega (arith, fits, row_fits y k w (ltb→lt y k below)))
  | inr above ↦ elim (Bool-cases (k == y)) [
    | inl same ↦ let e : k ≡ y = (==_iff k y).0 same in rw e (inr (omega (arith, b)))
    | inr other ↦
        let lower : k < y = ground (arith, above, other) in
        inl (omega (arith, m, row_fits k y w lower))
  ]
]
row_outside w l cols y k x fits m (inl ne) = elim (Bool-cases (ltb y k)) [
  | inl below ↦ inr (omega (arith, fits, row_fits y k w (ltb→lt y k below)))
  | inr above ↦
      let lower : k < y = ground (arith, above, ne) in inl (omega (arith, m, row_fits k y w lower))
]

module _ (rgba w l cols : ℕ) (fits : l + cols ≤ w) where
  RowsFilled-step :
      (n y : ℕ) (fb fb1 fb' : List ℕ)
      → RowCopied (λ x. some rgba) cols l (y * w) fb fb1
      → RowsFilled rgba w l cols n (y + 1) fb1 fb'
      → RowsFilled rgba w l cols (suc n) y fb fb'
  RowsFilled-step n y fb fb1 fb' one rest = record {
    same_length = rest.same_length ∙ one.same_length;
    inner = inside;
    outer = λ k x m out.
        rest.outer k x m (later k x out)
        ∙ one.others (k * w + x) (row_outside w l cols y k x fits m (apart k x out));
  }
    where
      inside :
          (k x : ℕ)
          → y ≤ k
          → k < y + suc n
          → l ≤ x
          → x < l + cols
          → get_elem? fb' (k * w + x) ≡ some rgba
      inside k x a b c d = elim (Bool-cases (k == y)) [
        | inl e ↦
            let e : k ≡ y = (==_iff k y).0 e in
            rw e (
              rest.outer y x (omega (arith, d, fits)) (inl (inl (omega arith)))
              ∙ ap (get_elem? fb1) {x = y * w + x} {y = y * w + (l + (x - l))} (omega (arith, c))
              ∙ one.copied (x - l) (omega (arith, c, d)))
        | inr e ↦ rest.inner k x (ground (arith, a)) (omega (arith, b)) c d
      ]

      later :
          (k x : ℕ)
          → ((k < y) ⊎ (y + suc n ≤ k)) ⊎ ((x < l) ⊎ (l + cols ≤ x))
          → ((k < y + 1) ⊎ (y + 1 + n ≤ k)) ⊎ ((x < l) ⊎ (l + cols ≤ x))
      later k x (inl (inl a)) = inl (inl (omega (arith, a)))
      later k x (inl (inr b)) = inl (inr (omega (arith, b)))
      later k x (inr c) = inr c

      apart :
          (k x : ℕ)
          → ((k < y) ⊎ (y + suc n ≤ k)) ⊎ ((x < l) ⊎ (l + cols ≤ x))
          → (k ≢ y) ⊎ ((x < l) ⊎ (l + cols ≤ x))
      apart k x (inl (inl a)) = inl (λ e. omega (arith, a, e))
      apart k x (inl (inr b)) = inl (λ e. omega (arith, b, e))
      apart k x (inr c) = inr c

  pub fill_rows-RowsFilled :
      (h n y : ℕ) (fb : List ℕ)
      → y + n ≤ h
      → h * w ≤ length fb
      → (fb' : List ℕ) × (fill_rows rgba w l cols n y fb ≡ some fb')
        × RowsFilled rgba w l cols n y fb fb'
  unfolding fill_rows
  fill_rows-RowsFilled h zero y fb ends room = (
    fb,
    refl,
    record {
      same_length = refl;
      inner = λ k x a b c d. absurd (omega (arith, a, b));
      outer = λ k x m out. refl;
    },
  )
  fill_rows-RowsFilled h (suc n) y fb ends room =
      let (fb1, e, one) =
        copy_row-RowCopied (λ x. some rgba) cols l (y * w) fb (λ k m. (rgba, refl))
          (omega (arith, room, fits, row_fits y h w (omega (arith, ends)))) in
      let (fb', f, rest) =
        fill_rows-RowsFilled h n (y + 1) fb1 (omega (arith, ends))
          (omega (arith, room, one.same_length)) in
      (fb', rw e f, RowsFilled-step n y fb fb1 fb' one rest)
