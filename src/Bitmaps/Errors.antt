-- ===== src/Bitmaps/Errors.antt =====
-- The images that Sources/Win32/wg_win32_bitmap.c refuses.
use wine_glass.Base.{
  ℕ, ◌<◌, ◌≡◌, ◌≢◌, refl, ◌⊎◌, inl, inr, Bool, true, not, some, List, ltb, lt→ltb, ◌==◌, Bool-cases,
  arith,
}
use wine_glass.Bitmaps.Types.{Bitmaps, DibHeader}
use wine_glass.Bitmaps.{bad_size, bad_depth, read_header, height, decode_sized, decode_dib}

-- What is not supported: a short header, compression, a size out of range, another depth.
abbrev pub Unsupported : DibHeader → ℕ → Type 0
Unsupported d h =
    (d.size < 40)
    ⊎ (d.comp ≢ 0)
    ⊎ (d.w ≡ 0)
    ⊎ (16384 < d.w)
    ⊎ (h ≡ 0)
    ⊎ (16384 < h)
    ⊎ ((d.bpp ≢ 8) × (d.bpp ≢ 24) × (d.bpp ≢ 32))

bad_size_width : (w h : ℕ) → (w ≡ 0) ⊎ (16384 < w) → bad_size w h ≡ true
bad_size_width w h (inl e) = ground arith
bad_size_width w h (inr l) = ground arith

bad_size_height : (w h : ℕ) → (h ≡ 0) ⊎ (16384 < h) → bad_size w h ≡ true
bad_size_height w h (inl e) = ground arith
bad_size_height w h (inr l) = ground arith

bad_depth_other : (b : ℕ) → b ≢ 8 → b ≢ 24 → b ≢ 32 → bad_depth b ≡ true
bad_depth_other b e f g = ground arith

module _ (calloc : ℕ → Bool) (t : Bitmaps) (d : DibHeader) (bih bits : List ℕ) (cap h : ℕ) where
  wrong_size : bad_size d.w h ≡ true → decode_sized calloc t d bih bits cap h ≡ some (t, 0)
  unfolding decode_sized
  wrong_size e = rw e refl

  wrong_depth : bad_depth d.bpp ≡ true → decode_sized calloc t d bih bits cap h ≡ some (t, 0)
  unfolding decode_sized
  wrong_depth e = elim (Bool-cases (bad_size d.w h)) [ inl s ↦ rw s refl | inr s ↦ rw (s, e) refl ]

  module _ (header : read_header bih ≡ some d) (tall : height d ≡ some h) where
    later :
        decode_sized calloc t d bih bits cap h ≡ some (t, 0)
        → decode_dib calloc t bih bits cap ≡ some (t, 0)
    unfolding decode_dib
    later e = elim (Bool-cases (ltb d.size 40)) [
      | inl short ↦ rw (header, short) refl
      | inr long ↦ elim (Bool-cases (not (d.comp == 0))) [
        | inl packed ↦ rw (header, long, packed) refl
        | inr plain ↦ rw (header, long, plain, tall) e
      ]
    ]

    -- An image whose header can be read and that is not supported gives the handle 0 and changes no
    -- bitmap.
    pub decode_dib-Unsupported : Unsupported d h → decode_dib calloc t bih bits cap ≡ some (t, 0)
    unfolding decode_dib
    decode_dib-Unsupported (inl short) = rw (header, lt→ltb _ _ short) refl
    decode_dib-Unsupported (inr (inl packed)) =
        let e : not (d.comp == 0) ≡ true = ground arith in
        elim (Bool-cases (ltb d.size 40)) [
          | inl short ↦ rw (header, short) refl
          | inr long ↦ rw (header, long, e) refl
        ]
    decode_dib-Unsupported (inr (inr (inl e))) = later (wrong_size (bad_size_width d.w h (inl e)))
    decode_dib-Unsupported (inr (inr (inr (inl l)))) =
        later (wrong_size (bad_size_width d.w h (inr l)))
    decode_dib-Unsupported (inr (inr (inr (inr (inl e))))) =
        later (wrong_size (bad_size_height d.w h (inl e)))
    decode_dib-Unsupported (inr (inr (inr (inr (inr (inl l)))))) =
        later (wrong_size (bad_size_height d.w h (inr l)))
    decode_dib-Unsupported (inr (inr (inr (inr (inr (inr (e, f, g))))))) =
        later (wrong_depth (bad_depth_other d.bpp e f g))
