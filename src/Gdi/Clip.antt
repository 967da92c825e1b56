-- ===== src/Gdi/Clip.antt =====
-- One row of `blit_pixels` of Sources/Win32/wg_win32_gdi.c stays inside its buffers and its columns.
use native.Mathlib.Nat.{mul_comm}
use wine_glass.Base.{
  ℕ, zero, suc, ◌+◌, ◌*◌, ◌≤◌, ◌<◌, ◌≡◌, ◌≢◌, ◌⊎◌, refl, ◌∙◌, false, some, List, ltb, ltb→lt,
  Bool-cases, inl, inr, get_elem?, get_elem?_total, length, arith,
}
use wine_glass.Base.Words.{u32}
use wine_glass.Bitmaps.Loops.{row_fits}
use wine_glass.Gdi.Fill.{row_outside}
use wine_glass.Gdi.Blit.{off, Blit, blit_px, blit_row}
use wine_glass.Gdi.Sums.{IsBlit, add_int_lem, scaled_total, Wrote, put_over_total}

-- Of the words of the target, those outside the `n` columns from column `i` on of row `y` are kept.
pub record RowKept (p : Blit) (y n i : ℕ) (dst dst' : List ℕ) : Type 0 where
  pub same_length : length dst' ≡ length dst
  pub others :
      (x row : ℕ)
      → x < p.tw
      → (row ≢ y) ⊎ ((k : ℕ) → i ≤ k → k < i + n → x ≢ u32 (p.dx + k))
      → get_elem? dst' (row * p.tw + x) ≡ get_elem? dst (row * p.tw + x)

module _ (p : Blit) (src : List ℕ → List ℕ) (v : IsBlit p)
    (source : (d : List ℕ) → length d ≡ p.tw * p.th → length (src d) ≡ p.src_w * p.src_h) where
  -- The word of the target for row `y` and column `i` of the rectangle.
  abbrev pub place_of : ℕ → ℕ → ℕ
  place_of y i = y * p.tw + u32 (p.dx + i)

  in_source :
      (y x : ℕ)
      → off y p.src_h ≡ false
      → off x p.src_w ≡ false
      → y * p.src_w + x < p.src_w * p.src_h
  in_source y x a b =
      let row = row_fits y p.src_h p.src_w (ground arith) in
      let column : x < p.src_w = ground arith in
      omega (arith, row, column, mul_comm p.src_h p.src_w)

  in_target : (y x : ℕ) → off y p.th ≡ false → off x p.tw ≡ false → y * p.tw + x < p.tw * p.th
  in_target y x a b =
      let row = row_fits y p.th p.tw (ground arith) in
      let column : x < p.tw = ground arith in omega (arith, row, column, mul_comm p.th p.tw)

  row_kept : (y n i : ℕ) (dst : List ℕ) → RowKept p y n i dst dst
  row_kept y n i dst = record { same_length = refl; others = λ x row l out. refl }

  px_kept :
      (y i : ℕ) (dst dst' : List ℕ)
      → u32 (p.dx + i) < p.tw
      → Wrote dst dst' (place_of y i)
      → RowKept p y 1 i dst dst'
  px_kept y i dst dst' inside w = record {
    same_length = w.same_length;
    others = λ x row l out. w.others (row * p.tw + x) (apart x row l out);
  }
    where
      apart :
          (x row : ℕ)
          → x < p.tw
          → (row ≢ y) ⊎ ((k : ℕ) → i ≤ k → k < i + 1 → x ≢ u32 (p.dx + k))
          → place_of y i ≢ row * p.tw + x
      apart x row l (inl ne) e =
          elim (row_outside p.tw (u32 (p.dx + i)) 1 y row x (omega (arith, inside)) l (inl ne)) [
            | inl a ↦ omega (arith, a, e)
            | inr a ↦ omega (arith, a, e)
          ]
      apart x row l (inr none_here) e =
          let ne = none_here i (omega arith) (omega arith) in
          elim (Bool-cases (ltb x (u32 (p.dx + i)))) [
            | inl a ↦
                elim (row_outside p.tw (u32 (p.dx + i)) 1 y row x (omega (arith, inside)) l
                  (inr (inl (ltb→lt x (u32 (p.dx + i)) a)))) [
                    | inl b ↦ omega (arith, b, e)
                    | inr b ↦ omega (arith, b, e)
                  ]
            | inr a ↦
                let beyond : u32 (p.dx + i) + 1 ≤ x = ground (arith, a, ne) in
                elim (row_outside p.tw (u32 (p.dx + i)) 1 y row x (omega (arith, inside)) l
                  (inr (inr beyond))) [ inl b ↦ omega (arith, b, e) | inr b ↦ omega (arith, b, e) ]
          ]

  blit_px_total :
      (y sy i : ℕ) (dst : List ℕ)
      → off y p.th ≡ false
      → off sy p.src_h ≡ false
      → i < p.dw
      → length dst ≡ p.tw * p.th
      → (dst' : List ℕ) × (blit_px p src y sy i dst ≡ some dst') × RowKept p y 1 i dst dst'
  unfolding blit_px
  blit_px_total y sy i dst a b l size =
      let at = add_int_lem p.dx p.dw i v.across l in
      elim (Bool-cases (off (u32 (p.dx + i)) p.tw)) [
        | inl out ↦ (dst, rw at (rw out refl), row_kept y 1 i dst)
        | inr inside ↦
            let (x, e) = scaled_total p.sx i p.sw p.dw v.source_across v.source_columns l v.wide in
            elim (Bool-cases (off x p.src_w)) [
              | inl out ↦ (dst, rw at (rw (inside, e) (rw out refl)), row_kept y 1 i dst)
              | inr there ↦
                  let (s, f) =
                    get_elem?_total (src dst) (sy * p.src_w + x)
                      (omega (arith, in_source sy x b there, source dst size)) in
                  let (dst', g, w) =
                    put_over_total dst (place_of y i) s
                      (omega (arith, in_target y (u32 (p.dx + i)) a inside, size)) in
                  (
                    dst',
                    rw at (rw (inside, e) (rw there (rw f g))),
                    px_kept y i dst dst' (ground arith) w,
                  )
            ]
      ]

  RowKept-step :
      (y n i : ℕ) (dst dst1 dst' : List ℕ)
      → RowKept p y 1 i dst dst1
      → RowKept p y n (i + 1) dst1 dst'
      → RowKept p y (suc n) i dst dst'
  RowKept-step y n i dst dst1 dst' one rest = record {
    same_length = rest.same_length ∙ one.same_length;
    others =
        λ x row l out. rest.others x row l (later x row out) ∙ one.others x row l (first x row out);
  }
    where
      later :
          (x row : ℕ)
          → (row ≢ y) ⊎ ((k : ℕ) → i ≤ k → k < i + suc n → x ≢ u32 (p.dx + k))
          → (row ≢ y) ⊎ ((k : ℕ) → i + 1 ≤ k → k < i + 1 + n → x ≢ u32 (p.dx + k))
      later x row (inl ne) = inl ne
      later x row (inr out) = inr (λ k a b. out k (omega (arith, a)) (omega (arith, b)))

      first :
          (x row : ℕ)
          → (row ≢ y) ⊎ ((k : ℕ) → i ≤ k → k < i + suc n → x ≢ u32 (p.dx + k))
          → (row ≢ y) ⊎ ((k : ℕ) → i ≤ k → k < i + 1 → x ≢ u32 (p.dx + k))
      first x row (inl ne) = inl ne
      first x row (inr out) = inr (λ k a b. out k a (omega (arith, b)))

  pub blit_row-RowKept :
      (y sy n i : ℕ) (dst : List ℕ)
      → off y p.th ≡ false
      → off sy p.src_h ≡ false
      → i + n ≤ p.dw
      → length dst ≡ p.tw * p.th
      → (dst' : List ℕ) × (blit_row p src y sy n i dst ≡ some dst') × RowKept p y n i dst dst'
  unfolding blit_row
  blit_row-RowKept y sy zero i dst a b l size = (dst, refl, row_kept y 0 i dst)
  blit_row-RowKept y sy (suc n) i dst a b l size =
      let (dst1, e, one) = blit_px_total y sy i dst a b (omega (arith, l)) size in
      let (dst', f, rest) =
        blit_row-RowKept y sy n (i + 1) dst1 a b (omega (arith, l)) (one.same_length ∙ size) in
      (dst', rw e f, RowKept-step y n i dst dst1 dst' one rest)
