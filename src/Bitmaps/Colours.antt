-- ===== src/Bitmaps/Colours.antt =====
-- The pixels that Sources/Win32/wg_win32_bitmap.c reads are those of the format.
use wine_glass.Base.{
  ℕ, ap, sym, ◌+◌, ◌-◌, ◌*◌, ◌/◌, ◌^◌, ◌≤◌, ◌<◌, ◌≡◌, refl, ◌∙◌, false, not, some, List, ltb, ◌==◌,
  if◌then◌else◌, Bool-cases, ==_iff, inl, inr, get_elem?, get_elem?_total, length, All, All-get,
  bit_or, Option, ltb→lt, arith,
}
use wine_glass.Base.Bits.{bit_and_low}
use wine_glass.Base.Bits.Fields.{bit_and_upper}
use wine_glass.Bitmaps.Types.{DibHeader}
use wine_glass.Bitmaps.{
  rd32, rd16, read_header, pal_n, palette_pixel, rgb_pixel, rgba_pixel, pack, source_pixel, stride,
}
use wine_glass.Bitmaps.Loops.{row_fits}
use wine_glass.Base.Bits.Fields.{bit_or_above}
use wine_glass.Bitmaps.Images.{
  HasHeader, Word32, Word16, row_length, colours, IsByte, IsImage, Colour, Indexed, WithAlpha,
  IsPixel,
}

pub stride_lem : (d : DibHeader) → d.w * (d.bpp / 8) < 2 ^ 62 → stride d ≡ row_length d
stride_lem d l =
    let n = d.w * (d.bpp / 8) in
    omega (arith, bit_and_upper 2 (n + 3) (2 ^ 62 - 1), bit_and_low 62 ((n + 3) / 2 ^ 2), l)

pack_lem :
    (r g b a : ℕ)
    → r < 256
    → g < 256
    → b < 256
    → pack r g b a ≡ r + g * 256 + b * 65536 + a * 16777216
pack_lem r g b a lr lg lb =
    let one : bit_or r (g * 2 ^ 8) ≡ r + g * 256 =
      omega (arith, bit_or_above 8 r g (omega (arith, lr))) in
    let two : bit_or (bit_or r (g * 2 ^ 8)) (b * 2 ^ 16) ≡ r + g * 256 + b * 65536 =
      omega (arith, one, bit_or_above 16 (bit_or r (g * 2 ^ 8)) b (omega (arith, one, lr, lg))) in
    omega (
      arith,
      two,
      bit_or_above 24 (bit_or (bit_or r (g * 2 ^ 8)) (b * 2 ^ 16)) a
          (omega (arith, two, lr, lg, lb)),
    )

rd32-Word32 : (xs : List ℕ) (i v : ℕ) → All IsByte xs → Word32 xs i v → rd32 xs i ≡ some v
unfolding rd32
rd32-Word32 xs i v all w =
    rw (w.byte0, w.byte1, w.byte2, w.byte3)
      (ap some (
        pack_lem w.b0 w.b1 w.b2 w.b3 (All-get IsByte xs i all w.byte0)
          (All-get IsByte xs (i + 1) all w.byte1) (All-get IsByte xs (i + 2) all w.byte2)
        ∙ sym w.sum))

rd16-Word16 : (xs : List ℕ) (i v : ℕ) → All IsByte xs → Word16 xs i v → rd16 xs i ≡ some v
unfolding rd16
rd16-Word16 xs i v all w =
    let low = All-get IsByte xs i all w.byte0 in
    let high = All-get IsByte xs (i + 1) all w.byte1 in
    rw (w.byte0, w.byte1)
      (ap some (omega (arith, bit_or_above 8 w.b0 w.b1 (omega (arith, low)), low, high, w.sum)))

pub read_header-HasHeader :
    (bih : List ℕ) (d : DibHeader) → All IsByte bih → HasHeader bih d → read_header bih ≡ some d
unfolding read_header
read_header-HasHeader bih d all h =
    rw
      (
        rd32-Word32 bih 0 d.size all h.size,
        rd32-Word32 bih 4 d.w all h.width,
        rd32-Word32 bih 8 d.h all h.height,
        rd16-Word16 bih 14 d.bpp all h.bit_count,
        rd32-Word32 bih 16 d.comp all h.compression,
        rd32-Word32 bih 32 d.clr_used all h.colours_used,
      )
      refl

abbrev Shown : (ℕ → Type 0) → Option ℕ → Type 0
Shown Q o = (v : ℕ) × (o ≡ some v) × Q v

-- Three bytes that are there, and their word with an alpha byte.
Colour-at :
    (xs : List ℕ) (i a : ℕ)
    → All IsByte xs
    → i + 2 < length xs
    → (b g r : ℕ) × (get_elem? xs i ≡ some b)
      × (get_elem? xs (i + 1) ≡ some g)
      × (get_elem? xs (i + 2) ≡ some r)
      × Colour xs i a (pack r g b a)
Colour-at xs i a all l =
    let (b, e) = get_elem?_total xs i (omega (arith, l)) in
    let (g, f) = get_elem?_total xs (i + 1) (omega (arith, l)) in
    let (r, k) = get_elem?_total xs (i + 2) (omega (arith, l)) in
    (
      b,
      g,
      r,
      e,
      f,
      k,
      record {
        b = b;
        g = g;
        r = r;
        blue = e;
        green = f;
        red = k;
        word =
            pack_lem r g b a (All-get IsByte xs (i + 2) all k) (All-get IsByte xs (i + 1) all f)
              (All-get IsByte xs i all e);
      },
    )

rgb_pixel-Colour :
    (bits : List ℕ) (i : ℕ)
    → All IsByte bits
    → i + 2 < length bits
    → Shown (Colour bits i 255) (rgb_pixel bits i)
unfolding rgb_pixel
rgb_pixel-Colour bits i all l =
    let (b, g, r, e, f, k, c) = Colour-at bits i 255 all l in
    (pack r g b 0xFF, rw (e, f, k) refl, c)

alpha_or_opaque : (a : ℕ) → (if not (a == 0) then a else 0xFF) ≡ (if a == 0 then 255 else a)
alpha_or_opaque a = ground arith

rgba_pixel-WithAlpha :
    (bits : List ℕ) (row x : ℕ)
    → All IsByte bits
    → row + x * 4 + 3 < length bits
    → Shown (WithAlpha bits row x) (rgba_pixel bits (row + x * 4))
unfolding rgba_pixel
rgba_pixel-WithAlpha bits row x all l =
    let (a, q) = get_elem?_total bits (row + x * 4 + 3) l in
    let alpha = if a == 0 then 255 else a in
    let (b, g, r, e, f, k, c) = Colour-at bits (row + x * 4) alpha all (omega (arith, l)) in
    (
      pack r g b alpha,
      rw (e, f, k) (rw (q, alpha_or_opaque a) refl),
      record { alpha = a; alpha_byte = q; colour = c },
    )

pal_n_lem : (d : DibHeader) → d.bpp ≡ 8 → pal_n d ≡ colours d
pal_n_lem d e = elim (Bool-cases (d.clr_used == 0)) [
  | inl none_used ↦ rw (none_used, e) refl
  | inr some_used ↦ rw some_used refl
]

palette_pixel-Indexed :
    (d : DibHeader) (bih bits : List ℕ) (row x n : ℕ)
    → d.bpp ≡ 8
    → All IsByte bih
    → d.size + colours d * 4 ≤ length bih
    → get_elem? bits (row + x) ≡ some n
    → n < 256
    → Shown (Indexed d bih bits row x) (palette_pixel d bih n)
unfolding palette_pixel
palette_pixel-Indexed d bih bits row x n e all room at small = elim (Bool-cases (ltb n (pal_n d))) [
  | inl known ↦
      let inside : n < colours d = omega (arith, ltb→lt n (pal_n d) known, pal_n_lem d e) in
      let (v, f, c) = rgb_pixel-Colour bih (d.size + n * 4) all (omega (arith, room, inside)) in
      (v, rw known f, record { index = n; index_byte = at; colour = inl (inside, c) })
  | inr grey ↦
      let above : pal_n d ≤ n = ground (arith, grey) in
      (
        pack n n n 0xFF,
        rw grey refl,
        record {
          index = n;
          index_byte = at;
          colour = inr (omega (arith, above, pal_n_lem d e), pack_lem n n n 0xFF small small small);
        },
      )
]

-- The word that is read for a pixel of an image is the pixel's.
pub source_pixel-IsPixel :
    (d : DibHeader) (bih bits : List ℕ) (h k x : ℕ)
    → IsImage d bih bits h
    → k < h
    → x < d.w
    → Shown (IsPixel d bih bits (k * row_length d) x) (source_pixel d bih bits (k * row_length d) x)
unfolding source_pixel
source_pixel-IsPixel d bih bits h k x v l m =
    let inside = row_fits k h (row_length d) l in
    elim v.depth [
      | inl e ↦
          let bytes : d.w * (d.bpp / 8) ≡ d.w = rw e (omega arith) in
          let (n, f) =
            get_elem?_total bits (k * row_length d + x) (omega (arith, m, inside, v.rows, bytes)) in
          let (u, g, c) =
            palette_pixel-Indexed d bih bits (k * row_length d) x n e v.bih_bytes (v.palette e) f
              (All-get IsByte bits (k * row_length d + x) v.bits_bytes f) in
          (u, rw ((==_iff d.bpp 8).1 e, f) g, inl (e, c))
      | inr (inl e) ↦
          let bytes : d.w * (d.bpp / 8) ≡ d.w * 3 = rw e refl in
          let (u, f, c) =
            rgb_pixel-Colour bits (k * row_length d + x * 3) v.bits_bytes
              (omega (arith, m, inside, v.rows, bytes)) in
          let not8 : (d.bpp == 8) ≡ false = rw e refl in
          (u, rw (not8, (==_iff d.bpp 24).1 e) f, inr (inl (e, c)))
      | inr (inr e) ↦
          let bytes : d.w * (d.bpp / 8) ≡ d.w * 4 = rw e refl in
          let (u, f, c) =
            rgba_pixel-WithAlpha bits (k * row_length d) x v.bits_bytes
              (omega (arith, m, inside, v.rows, bytes)) in
          let not8 : (d.bpp == 8) ≡ false = rw e refl in
          let not24 : (d.bpp == 24) ≡ false = rw e refl in (u, rw (not8, not24) f, inr (inr (e, c)))
    ]
