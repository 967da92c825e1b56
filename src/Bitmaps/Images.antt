-- ===== src/Bitmaps/Images.antt =====
-- What Sources/Win32/wg_win32_bitmap.c takes for an image, and which word each pixel of it has: the
-- layout of the format, apart from the code that decodes it.
use wine_glass.Base.{
  ℕ, ◌+◌, ◌-◌, ◌*◌, ◌/◌, ◌^◌, ◌≤◌, ◌<◌, ◌≡◌, ◌⊎◌, some, List, ltb, ◌==◌, if◌then◌else◌, get_elem?,
  length, All,
}
use wine_glass.Bitmaps.Types.{DibHeader}

-- Numbers of four and of two bytes, the lowest byte first.
pub record Word32 (xs : List ℕ) (i v : ℕ) : Type 0 where
  pub b0 : ℕ
  pub b1 : ℕ
  pub b2 : ℕ
  pub b3 : ℕ
  pub byte0 : get_elem? xs i ≡ some b0
  pub byte1 : get_elem? xs (i + 1) ≡ some b1
  pub byte2 : get_elem? xs (i + 2) ≡ some b2
  pub byte3 : get_elem? xs (i + 3) ≡ some b3
  pub sum : v ≡ b0 + b1 * 256 + b2 * 65536 + b3 * 16777216

pub record Word16 (xs : List ℕ) (i v : ℕ) : Type 0 where
  pub b0 : ℕ
  pub b1 : ℕ
  pub byte0 : get_elem? xs i ≡ some b0
  pub byte1 : get_elem? xs (i + 1) ≡ some b1
  pub sum : v ≡ b0 + b1 * 256

-- The fields of a `BITMAPINFOHEADER`.
pub record HasHeader (bih : List ℕ) (d : DibHeader) : Type 0 where
  pub size : Word32 bih 0 d.size
  pub width : Word32 bih 4 d.w
  pub height : Word32 bih 8 d.h
  pub bit_count : Word16 bih 14 d.bpp
  pub compression : Word32 bih 16 d.comp
  pub colours_used : Word32 bih 32 d.clr_used

-- The bytes of a row of the file, filled up to a multiple of four.
abbrev pub row_length : DibHeader → ℕ
row_length d = (d.w * (d.bpp / 8) + 3) / 4 * 4

-- The colours of an image of 8 bits.
abbrev pub colours : DibHeader → ℕ
colours d = if d.clr_used == 0 then 256 else d.clr_used

abbrev pub IsByte : ℕ → Type 0
IsByte b = b < 256

-- A header of an image of `h` rows: the sizes are from 1 to 16384, the height may be that of an
-- `int32_t` below 0, the rows and the palette are there, and all are bytes.
pub record IsImage (d : DibHeader) (bih bits : List ℕ) (h : ℕ) : Type 0 where
  pub width : (0 < d.w) × (d.w ≤ 16384)
  pub rows_fit : (0 < h) × (h ≤ 16384)
  pub signed : (d.h ≡ h) ⊎ (d.h + h ≡ 2 ^ 32)
  pub depth : (d.bpp ≡ 8) ⊎ (d.bpp ≡ 24) ⊎ (d.bpp ≡ 32)
  pub rows : h * row_length d ≤ length bits
  pub palette : d.bpp ≡ 8 → d.size + colours d * 4 ≤ length bih
  pub bih_bytes : All IsByte bih
  pub bits_bytes : All IsByte bits

-- Three bytes, blue, green and red, and the word that they make with an alpha byte: red lowest.
pub record Colour (xs : List ℕ) (i alpha v : ℕ) : Type 0 where
  pub b : ℕ
  pub g : ℕ
  pub r : ℕ
  pub blue : get_elem? xs i ≡ some b
  pub green : get_elem? xs (i + 1) ≡ some g
  pub red : get_elem? xs (i + 2) ≡ some r
  pub word : v ≡ r + g * 256 + b * 65536 + alpha * 16777216

-- The pixel of column `x` in the row of the file at `row` has the word `v`.
-- 8 bits: an index, of a colour of the palette or, above it, of a grey.
pub record Indexed (d : DibHeader) (bih bits : List ℕ) (row x v : ℕ) : Type 0 where
  pub index : ℕ
  pub index_byte : get_elem? bits (row + x) ≡ some index
  pub colour :
      ((index < colours d) × Colour bih (d.size + index * 4) 255 v)
      ⊎ ((colours d ≤ index) × (v ≡ index + index * 256 + index * 65536 + 255 * 16777216))

-- 32 bits: an alpha of 0 stands for 255.
pub record WithAlpha (bits : List ℕ) (row x v : ℕ) : Type 0 where
  pub alpha : ℕ
  pub alpha_byte : get_elem? bits (row + x * 4 + 3) ≡ some alpha
  pub colour : Colour bits (row + x * 4) (if alpha == 0 then 255 else alpha) v

abbrev pub IsPixel : DibHeader → List ℕ → List ℕ → ℕ → ℕ → ℕ → Type 0
IsPixel d bih bits row x v =
    ((d.bpp ≡ 8) × Indexed d bih bits row x v)
    ⊎ ((d.bpp ≡ 24) × Colour bits (row + x * 3) 255 v)
    ⊎ ((d.bpp ≡ 32) × WithAlpha bits row x v)

-- The row of the file for row `y` of the picture: the file begins with the lowest row, unless the
-- height in the header is below 0.
abbrev pub file_row : DibHeader → ℕ → ℕ → ℕ
file_row d h y = if ltb d.h (2 ^ 31) then h - 1 - y else y

-- The words of a picture, row by row from the top.
pub record IsPicture (d : DibHeader) (bih bits : List ℕ) (h : ℕ) (px : List ℕ) : Type 0 where
  pub size : length px ≡ d.w * h
  pub words :
      (x y : ℕ)
      → x < d.w
      → y < h
      → (v : ℕ) × (get_elem? px (y * d.w + x) ≡ some v)
        × IsPixel d bih bits (file_row d h y * row_length d) x v
