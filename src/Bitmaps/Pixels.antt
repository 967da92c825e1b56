-- ===== src/Bitmaps/Pixels.antt =====
-- The images that Sources/Win32/wg_win32_bitmap.c decodes: which pixel comes from where.
use native.Mathlib.Nat.{mul_comm}
use wine_glass.Base.{
  ℕ, Option, leb, ap, sym, ◌+◌, ◌*◌, ◌^◌, ◌≤◌, ◌<◌, ◌≡◌, ◌⊎◌, refl, ◌∙◌, Bool, true, false, ◌&&◌,
  not, some, List, ltb, ◌==◌, if◌then◌else◌, Bool-cases, inl, inr, set, get_elem?, length,
  length-replicate, replicate, set-set_self, arith,
}
use wine_glass.Base.Words.{u32}
use wine_glass.Base.Tables.{free_slot, free_slot-FreeAt}
use wine_glass.Bitmaps.Types.{Bitmap, Bitmaps, DibHeader}
use wine_glass.Bitmaps.{
  is_used, handle_of, bad_size, bad_depth, alloc_slot, top_down, height, source_pixel, stride,
  copy_rows, dest_row, decode_sized, decode_dib, pixels,
}
use wine_glass.Bitmaps.Loops.{RowsCopied, copy_rows-RowsCopied}
use wine_glass.Bitmaps.Handles.{IsBitmaps, pixels-added}
use wine_glass.Bitmaps.Images.{HasHeader, row_length, IsImage, IsPicture, IsPixel, file_row}
use wine_glass.Bitmaps.Colours.{stride_lem, read_header-HasHeader, source_pixel-IsPixel}

-- The tests of the code accept an image.
accepted_size :
    (d : DibHeader) (bih bits : List ℕ) (h : ℕ) → IsImage d bih bits h → bad_size d.w h ≡ false
accepted_size d bih bits h v = ground (arith, v.width, v.rows_fit)

accepted_depth :
    (d : DibHeader) (bih bits : List ℕ) (h : ℕ) → IsImage d bih bits h → bad_depth d.bpp ≡ false
accepted_depth d bih bits h v = elim v.depth [
  | inl e ↦ rw e refl
  | inr (inl e) ↦ rw e refl
  | inr (inr e) ↦ rw e refl
]

accepted_height :
    (d : DibHeader) (bih bits : List ℕ) (h : ℕ) → IsImage d bih bits h → height d ≡ some h
unfolding height
accepted_height d bih bits h v = elim v.signed [
  | inl up ↦ let e : top_down d ≡ false = ground (arith, up, v.rows_fit) in rw e (ap some up)
  | inr down ↦
      let e : top_down d ≡ true = ground (arith, down, v.rows_fit) in
      let f : (d.h == 2 ^ 31) ≡ false = ground (arith, down, v.rows_fit) in
      rw e (rw f (ap some (omega (arith, down))))
]

stride_is :
    (d : DibHeader) (bih bits : List ℕ) (h : ℕ) → IsImage d bih bits h → stride d ≡ row_length d
stride_is d bih bits h v = stride_lem d (elim v.depth [
  | inl e ↦ rw e (omega (arith, v.width))
  | inr (inl e) ↦ rw e (omega (arith, v.width))
  | inr (inr e) ↦ rw e (omega (arith, v.width))
])

-- The code's row for a row of the file undoes `file_row`.
dest_row-file_row : (d : DibHeader) (h y : ℕ) → y < h → dest_row (top_down d) h (file_row d h y) ≡ y
dest_row-file_row d h y l = elim (Bool-cases (leb (2 ^ 31) d.h)) [
  | inl down ↦ let e : ltb d.h (2 ^ 31) ≡ false = ground arith in rw (down, e) refl
  | inr up ↦ let e : ltb d.h (2 ^ 31) ≡ true = ground arith in rw (up, e) (omega (arith, l))
]

file_row-lt : (d : DibHeader) (h y : ℕ) → y < h → file_row d h y < h
file_row-lt d h y l = elim (Bool-cases (ltb d.h (2 ^ 31))) [
  | inl up ↦ rw up (omega (arith, l))
  | inr down ↦ rw down l
]

module _ (d : DibHeader) (bih bits : List ℕ) (h : ℕ) (v : IsImage d bih bits h) where
  abbrev source : ℕ → ℕ → Option ℕ
  source y = source_pixel d bih bits (y * stride d)

  source_shown :
      (k x : ℕ)
      → k < h
      → x < d.w
      → (u : ℕ) × (source k x ≡ some u) × IsPixel d bih bits (k * row_length d) x u
  source_shown k x l m = rw (stride_is d bih bits h v) (source_pixel-IsPixel d bih bits h k x v l m)

  IsPicture-of :
      (px : List ℕ)
      → length px ≡ d.w * h
      → RowsCopied source (top_down d) d.w h h 0 (replicate (d.w * h) 0) px
      → IsPicture d bih bits h px
  IsPicture-of px size r = record { size = size; words = shown }
    where
      shown :
          (x y : ℕ)
          → x < d.w
          → y < h
          → (u : ℕ) × (get_elem? px (y * d.w + x) ≡ some u)
            × IsPixel d bih bits (file_row d h y * row_length d) x u
      shown x y m l =
          let k = file_row d h y in
          let (u, e, c) = source_shown k x (file_row-lt d h y l) m in
          let there = r.copied k x (omega arith) (omega (arith, file_row-lt d h y l)) m in
          (
            u,
            ap (λ row. get_elem? px (row * d.w + x)) (sym (dest_row-file_row d h y l)) ∙ there ∙ e,
            c,
          )

  rows_shown :
      (px : List ℕ) × (copy_rows source (top_down d) d.w h h 0 (replicate (d.w * h) 0) ≡ some px)
      × IsPicture d bih bits h px
  rows_shown =
      let blank : length {A = ℕ} (replicate (d.w * h) 0) ≡ d.w * h =
        length-replicate {A = ℕ} (d.w * h) 0 in
      let (px, e, r) =
        copy_rows-RowsCopied source (top_down d) d.w h h 0 (replicate (d.w * h) 0) (omega arith)
          (omega (arith, blank, mul_comm d.w h))
          (λ k x l m. let (u, e, c) = source_shown k x l m in (u, e)) in
      (px, e, IsPicture-of px (r.same_length ∙ blank) r)

module _ (calloc : ℕ → Bool) (t : Bitmaps) (d : DibHeader) (bih bits : List ℕ) (cap h i : ℕ)
    (old : Bitmap) (v : IsBitmaps t) (room : t.next + 1 < 2 ^ 32)
    (free : free_slot is_used handle_of t.bmps ≡ some (i, old))
    (memory : calloc (d.w * h * 4) ≡ true) (image : IsImage d bih bits h)
    (capped : (cap ≡ 0) ⊎ (h * row_length d ≤ cap)) where
  abbrev loaded : List ℕ → Bitmaps
  loaded px = record {
    bmps = set t.bmps i (record { used = true; handle = t.next; w = d.w; h = h; px = some px });
    next = u32 (t.next + 1);
  }

  uncut : (not (cap == 0) && ltb cap (stride d * h)) ≡ false
  uncut = elim capped [
    | inl e ↦ rw e refl
    | inr l ↦ rw (stride_is d bih bits h image) (ground (arith, mul_comm (row_length d) h))
  ]

  decoded_rows :
      (px : List ℕ)
      → copy_rows (source d bih bits h image) (top_down d) d.w h h 0 (replicate (d.w * h) 0)
        ≡ some px
      → decode_sized calloc t d bih bits cap h ≡ some (loaded px, t.next)
  unfolding decode_sized alloc_slot
  decoded_rows px e =
      rw
        (
          accepted_size d bih bits h image,
          accepted_depth d bih bits h image,
          free,
          memory,
          uncut,
          e,
          set-set_self,
        )
        refl

  module _ (header : HasHeader bih d) (long : 40 ≤ d.size) (plain : d.comp ≡ 0) where
    accepted :
        (s : Bitmaps)
        → decode_sized calloc t d bih bits cap h ≡ some (s, t.next)
        → decode_dib calloc t bih bits cap ≡ some (s, t.next)
    unfolding decode_dib
    accepted s e =
        let enough : ltb d.size 40 ≡ false = ground arith in
        let unpacked : not (d.comp == 0) ≡ false = ground arith in
        let read = read_header-HasHeader bih d image.bih_bytes header in
        rw (read, enough, unpacked, accepted_height d bih bits h image) e

    -- An uncompressed image of 8, 24 or 32 bits with these header fields, with sizes from 1 to 16384, whose rows and palette are
    -- in memory and are bytes, with a free slot, memory and no limit below the rows: decoding gives the
    -- next handle, and under it a picture of that size, the top row first, which is the last one of
    -- the file where the height is positive. Each pixel has the colour that its bytes in the file say:
    -- an index of the palette or of a grey, or blue, green and red, and at 32 bits alpha. Every other
    -- handle keeps its picture.
    pub decode_dib-pixels :
        (px : List ℕ) × (s : Bitmaps) × (decode_dib calloc t bih bits cap ≡ some (s, t.next))
        × ((k : ℕ) → pixels s k ≡ (if k == t.next then some (some px, d.w, h) else pixels t k))
        × IsPicture d bih bits h px
    decode_dib-pixels =
        let (px, e, shown) = rows_shown d bih bits h image in
        let bm : Bitmap = record { used = true; handle = t.next; w = d.w; h = h; px = some px } in
        (
          px,
          loaded px,
          accepted (loaded px) (decoded_rows px e),
          pixels-added t i bm v (free_slot-FreeAt is_used handle_of t.bmps i old free) refl refl
              room,
          shown,
        )
