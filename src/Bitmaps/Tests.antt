-- ===== src/Bitmaps/Tests.antt =====
-- Bitmaps with concrete images.
use wine_glass.Base.{
  ℕ, ◌≡◌, refl, Bool, true, ltb, ◌&&◌, All, inl, Option, none, some, List, [], ◌∷◌, arith, inr,
  replicate, set, if◌then◌else◌, ◌==◌,
}
use wine_glass.Base.Tables.{free_slot, find_slot}
use wine_glass.Bitmaps.Types.{Bitmap, Bitmaps, DibHeader, no_bitmap, no_bitmaps}
use wine_glass.Bitmaps.{
  decode_dib, decode_sized, alloc_slot, copy_rows, copy_row, write_px, rgb_pixel, rd32, rd16,
  read_header, height, source_pixel, pixels, delete, is_used, handle_of,
}
use wine_glass.Bitmaps.Handles.{IsBitmaps, no_bitmaps-IsBitmaps, added-IsBitmaps, delete-pixels}
use wine_glass.Bitmaps.Errors.{decode_dib-Unsupported}
use wine_glass.Bitmaps.Images.{IsByte, HasHeader, IsImage, IsPicture}
use wine_glass.Bitmaps.Pixels.{decode_dib-pixels}

-- Two by two pixels of 24 bits, bottom up: each row takes eight bytes.
abbrev dib : List ℕ
dib = 40 ∷ 0 ∷ 0 ∷ 0 ∷ 2 ∷ 0 ∷ 0 ∷ 0 ∷ 2 ∷ 0 ∷ 0 ∷ 0 ∷ 1 ∷ 0 ∷ 24 ∷ 0 ∷ replicate 24 0

abbrev bits : List ℕ
bits = 1 ∷ 2 ∷ 3 ∷ 4 ∷ 5 ∷ 6 ∷ 0 ∷ 0 ∷ 7 ∷ 8 ∷ 9 ∷ 10 ∷ 11 ∷ 12 ∷ 0 ∷ 0 ∷ []

abbrev header : DibHeader
header = record { size = 40; w = 2; h = 2; bpp = 24; comp = 0; clr_used = 0 }

header-HasHeader : HasHeader dib header
header-HasHeader = record {
  size = record {
    b0 = 40;
    b1 = 0;
    b2 = 0;
    b3 = 0;
    byte0 = refl;
    byte1 = refl;
    byte2 = refl;
    byte3 = refl;
    sum = refl;
  };
  width = record {
    b0 = 2;
    b1 = 0;
    b2 = 0;
    b3 = 0;
    byte0 = refl;
    byte1 = refl;
    byte2 = refl;
    byte3 = refl;
    sum = refl;
  };
  height = record {
    b0 = 2;
    b1 = 0;
    b2 = 0;
    b3 = 0;
    byte0 = refl;
    byte1 = refl;
    byte2 = refl;
    byte3 = refl;
    sum = refl;
  };
  bit_count = record { b0 = 24; b1 = 0; byte0 = refl; byte1 = refl; sum = refl };
  compression = record {
    b0 = 0;
    b1 = 0;
    b2 = 0;
    b3 = 0;
    byte0 = refl;
    byte1 = refl;
    byte2 = refl;
    byte3 = refl;
    sum = refl;
  };
  colours_used = record {
    b0 = 0;
    b1 = 0;
    b2 = 0;
    b3 = 0;
    byte0 = refl;
    byte1 = refl;
    byte2 = refl;
    byte3 = refl;
    sum = refl;
  };
}

abbrev all_small : List ℕ → Bool
all_small [] = true
all_small (x ∷ xs) = ltb x 256 && all_small xs

small_bytes : (xs : List ℕ) → all_small xs ≡ true → All IsByte xs
small_bytes [] e = tt
small_bytes (x ∷ xs) e = (ground (arith, e), small_bytes xs (ground (arith, e)))

bits-IsImage : IsImage header dib bits 2
bits-IsImage = record {
  width = (omega arith, omega arith);
  rows_fit = (omega arith, omega arith);
  signed = inl refl;
  depth = inr (inl refl);
  rows = omega arith;
  palette = λ e. absurd (omega (arith, e));
  bih_bytes = small_bytes dib refl;
  bits_bytes = small_bytes bits refl;
}

free : free_slot is_used handle_of no_bitmaps.bmps ≡ some (0, no_bitmap)
unfolding free_slot
free = refl

decode_dib-pixels_example :
    (px : List ℕ) × (s : Bitmaps) × (decode_dib (λ n. true) no_bitmaps dib bits 16
      ≡ some (s, 0x0B170000))
    × ((k : ℕ)
        → pixels s k ≡ (if k == 0x0B170000 then some (some px, 2, 2) else pixels no_bitmaps k))
    × IsPicture header dib bits 2 px
decode_dib-pixels_example =
    decode_dib-pixels (λ n. true) no_bitmaps header dib bits 16 2 0 no_bitmap no_bitmaps-IsBitmaps
      (omega arith) free refl bits-IsImage (inr (omega arith)) header-HasHeader (omega arith) refl

abbrev decoded_words : Option (Bitmaps × ℕ) → Option (Option (List ℕ) × ℕ × ℕ)
decoded_words none = none
decoded_words (some (s, h)) = pixels s h

-- The last row of the file is the top one; colours are stored as blue, green, red.
decode_dib_words :
    decoded_words (decode_dib (λ n. true) no_bitmaps dib bits 16)
    ≡ some (some (0xFF070809 ∷ 0xFF0A0B0C ∷ 0xFF010203 ∷ 0xFF040506 ∷ []), 2, 2)
unfolding decode_dib read_header rd32 rd16 height decode_sized alloc_slot free_slot copy_rows
    copy_row write_px source_pixel rgb_pixel pixels find_slot
decode_dib_words = refl

abbrev picture : Bitmap
picture = record { used = true; handle = 0x0B170000; w = 1; h = 1; px = some (7 ∷ []) }

abbrev one : Bitmaps
one = record { bmps = set no_bitmaps.bmps 0 picture; next = 0x0B170001 }

one-IsBitmaps : IsBitmaps one
one-IsBitmaps =
    added-IsBitmaps no_bitmaps 0 picture no_bitmaps-IsBitmaps refl refl refl (omega arith)

delete-pixels_example :
    IsBitmaps (delete one 0x0B170000)
    × (pixels (delete one 0x0B170000) 0x0B170000
        ≡ (if 0x0B170000 == 0x0B170000 then none else pixels one 0x0B170000))
delete-pixels_example = delete-pixels one 0x0B170000 0x0B170000 one-IsBitmaps

-- The same header with 16 bits to the pixel.
abbrev deep : List ℕ
deep = 40 ∷ 0 ∷ 0 ∷ 0 ∷ 2 ∷ 0 ∷ 0 ∷ 0 ∷ 2 ∷ 0 ∷ 0 ∷ 0 ∷ 1 ∷ 0 ∷ 16 ∷ 0 ∷ replicate 24 0

abbrev deep_header : DibHeader
deep_header = record { size = 40; w = 2; h = 2; bpp = 16; comp = 0; clr_used = 0 }

read_header-deep : read_header deep ≡ some deep_header
unfolding read_header rd32 rd16
read_header-deep = refl

height-deep : height deep_header ≡ some 2
unfolding height
height-deep = refl

decode_dib-Unsupported_example : decode_dib (λ n. true) one deep bits 16 ≡ some (one, 0)
decode_dib-Unsupported_example =
    decode_dib-Unsupported (λ n. true) one deep_header deep bits 16 2 read_header-deep height-deep
      (inr (inr (inr (inr (inr (inr (omega arith)))))))
