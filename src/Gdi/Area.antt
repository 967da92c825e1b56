-- ===== src/Gdi/Area.antt =====
-- `blit_pixels` of Sources/Win32/wg_win32_gdi.c stays inside its buffers and its rectangle.
use wine_glass.Base.{
  ℕ, zero, suc, ◌+◌, ◌*◌, ◌≤◌, ◌<◌, ◌≡◌, ◌≢◌, ◌⊎◌, refl, ◌∙◌, some, List, Bool-cases, inl, inr,
  get_elem?, length, arith,
}
use wine_glass.Base.Words.{u32}
use wine_glass.Gdi.Blit.{off, Blit, blit_line, blit_rows}
use wine_glass.Gdi.Sums.{IsBlit, add_int_lem, scaled_total}
use wine_glass.Gdi.Clip.{RowKept, blit_row-RowKept}

-- The words that no row from `j` on, `n` of them, or no column of the rectangle reaches are kept.
pub record AreaKept (p : Blit) (n j : ℕ) (dst dst' : List ℕ) : Type 0 where
  pub same_length : length dst' ≡ length dst
  pub others :
      (x row : ℕ)
      → x < p.tw
      → ((k : ℕ) → j ≤ k → k < j + n → row ≢ u32 (p.dy + k))
        ⊎ ((k : ℕ) → k < p.dw → x ≢ u32 (p.dx + k))
      → get_elem? dst' (row * p.tw + x) ≡ get_elem? dst (row * p.tw + x)

module _ (p : Blit) (src : List ℕ → List ℕ) (v : IsBlit p)
    (source : (d : List ℕ) → length d ≡ p.tw * p.th → length (src d) ≡ p.src_w * p.src_h) where
  area_kept : (n j : ℕ) (dst : List ℕ) → AreaKept p n j dst dst
  area_kept n j dst = record { same_length = refl; others = λ x row l out. refl }

  row_in_area :
      (j : ℕ) (dst dst' : List ℕ)
      → RowKept p (u32 (p.dy + j)) p.dw 0 dst dst'
      → AreaKept p 1 j dst dst'
  row_in_area j dst dst' w = record {
    same_length = w.same_length;
    others = λ x row l out. w.others x row l (apart x row out);
  }
    where
      apart :
          (x row : ℕ)
          → ((k : ℕ) → j ≤ k → k < j + 1 → row ≢ u32 (p.dy + k))
            ⊎ ((k : ℕ) → k < p.dw → x ≢ u32 (p.dx + k))
          → (row ≢ u32 (p.dy + j)) ⊎ ((k : ℕ) → 0 ≤ k → k < 0 + p.dw → x ≢ u32 (p.dx + k))
      apart x row (inl ne) = inl (ne j (omega arith) (omega arith))
      apart x row (inr out) = inr (λ k a b. out k (omega (arith, b)))

  blit_line-AreaKept :
      (j : ℕ) (dst : List ℕ)
      → j < p.dh
      → length dst ≡ p.tw * p.th
      → (dst' : List ℕ) × (blit_line p src j dst ≡ some dst') × AreaKept p 1 j dst dst'
  unfolding blit_line
  blit_line-AreaKept j dst l size =
      let at = add_int_lem p.dy p.dh j v.down l in
      elim (Bool-cases (off (u32 (p.dy + j)) p.th)) [
        | inl out ↦ (dst, rw at (rw out refl), area_kept 1 j dst)
        | inr inside ↦
            let (y, e) = scaled_total p.sy j p.sh p.dh v.source_down v.source_rows l v.tall in
            elim (Bool-cases (off y p.src_h)) [
              | inl out ↦ (dst, rw at (rw (inside, e) (rw out refl)), area_kept 1 j dst)
              | inr there ↦
                  let (dst', f, w) =
                    blit_row-RowKept p src v source (u32 (p.dy + j)) y p.dw 0 dst inside there
                      (omega arith) size in
                  (dst', rw at (rw (inside, e) (rw there f)), row_in_area j dst dst' w)
            ]
      ]

  area_step :
      (n j : ℕ) (dst dst1 dst' : List ℕ)
      → AreaKept p 1 j dst dst1
      → AreaKept p n (j + 1) dst1 dst'
      → AreaKept p (suc n) j dst dst'
  area_step n j dst dst1 dst' one rest = record {
    same_length = rest.same_length ∙ one.same_length;
    others =
        λ x row l out. rest.others x row l (later x row out) ∙ one.others x row l (first x row out);
  }
    where
      later :
          (x row : ℕ)
          → ((k : ℕ) → j ≤ k → k < j + suc n → row ≢ u32 (p.dy + k))
            ⊎ ((k : ℕ) → k < p.dw → x ≢ u32 (p.dx + k))
          → ((k : ℕ) → j + 1 ≤ k → k < j + 1 + n → row ≢ u32 (p.dy + k))
            ⊎ ((k : ℕ) → k < p.dw → x ≢ u32 (p.dx + k))
      later x row (inl out) = inl (λ k a b. out k (omega (arith, a)) (omega (arith, b)))
      later x row (inr out) = inr out

      first :
          (x row : ℕ)
          → ((k : ℕ) → j ≤ k → k < j + suc n → row ≢ u32 (p.dy + k))
            ⊎ ((k : ℕ) → k < p.dw → x ≢ u32 (p.dx + k))
          → ((k : ℕ) → j ≤ k → k < j + 1 → row ≢ u32 (p.dy + k))
            ⊎ ((k : ℕ) → k < p.dw → x ≢ u32 (p.dx + k))
      first x row (inl out) = inl (λ k a b. out k a (omega (arith, b)))
      first x row (inr out) = inr out

  -- Where the sums and products of the loops fit in an int, and the target and the source have the
  -- words of their sizes, a blit never leaves the two buffers: it succeeds, keeps the number of words,
  -- and changes no pixel of the target in a row or a column that the rectangle does not reach.
  pub blit_rows-AreaKept :
      (n j : ℕ) (dst : List ℕ)
      → j + n ≤ p.dh
      → length dst ≡ p.tw * p.th
      → (dst' : List ℕ) × (blit_rows p src n j dst ≡ some dst') × AreaKept p n j dst dst'
  unfolding blit_rows
  blit_rows-AreaKept zero j dst l size = (dst, refl, area_kept 0 j dst)
  blit_rows-AreaKept (suc n) j dst l size =
      let (dst1, e, one) = blit_line-AreaKept j dst (omega (arith, l)) size in
      let (dst', f, rest) =
        blit_rows-AreaKept n (j + 1) dst1 (omega (arith, l)) (one.same_length ∙ size) in
      (dst', rw e f, area_step n j dst dst1 dst' one rest)
