-- ===== src/Bitmaps/Types.antt =====
-- The data of Sources/Win32/wg_win32_bitmap.c: bitmaps and their table.
use wine_glass.Base.{ℕ, Bool, false, Option, none, List, replicate}

-- `px` holds w * h words, the top row first; `none` is NULL.
pub record Bitmap : Type 0 where
  pub used : Bool
  pub handle : ℕ
  pub w : ℕ
  pub h : ℕ
  pub px : Option (List ℕ)

-- `s_bmps` and `s_next`.
pub record Bitmaps : Type 0 where
  pub bmps : List Bitmap
  pub next : ℕ

abbrev pub hbitmap_base : ℕ
hbitmap_base = 0x0B170000

abbrev pub max_bitmaps : ℕ
max_bitmaps = 64

abbrev pub no_bitmap : Bitmap
no_bitmap = record { used = false; handle = 0; w = 0; h = 0; px = none }

abbrev pub no_bitmaps : Bitmaps
no_bitmaps = record { bmps = replicate 64 no_bitmap; next = hbitmap_base }

-- The fields of a BITMAPINFOHEADER that are read. Width and height are patterns of 32 bits.
pub record DibHeader : Type 0 where
  pub size : ℕ
  pub w : ℕ
  pub h : ℕ
  pub bpp : ℕ
  pub comp : ℕ
  pub clr_used : ℕ
