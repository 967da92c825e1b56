-- ===== src/Gdi/Types.antt =====
-- The data of Sources/Win32/wg_win32_gdi.c: device contexts and brushes.
use wine_glass.Base.{ℕ, Bool, false, List, [], replicate}

-- `cur_x` and `cur_y` are patterns of 32 bits; a font's name is its bytes before the terminator.
pub record Dc : Type 0 where
  pub used : Bool
  pub handle : ℕ
  pub hwnd : ℕ
  pub is_memdc : Bool
  pub sel_bitmap : ℕ
  pub text_color : ℕ
  pub bk_color : ℕ
  pub bk_mode : ℕ
  pub cur_x : ℕ
  pub cur_y : ℕ
  pub font_px : ℕ
  pub font_bold : Bool
  pub font_name : List ℕ

pub record Brush : Type 0 where
  pub used : Bool
  pub color : ℕ

-- `s_dcs`, `s_next_dc`, `s_brush_used` and `s_brush_color`.
pub record Gdi : Type 0 where
  pub dcs : List Dc
  pub next_dc : ℕ
  pub brushes : List Brush

abbrev pub dc_base : ℕ
dc_base = 0x00DC0000

abbrev pub max_dcs : ℕ
max_dcs = 32

abbrev pub max_brushes : ℕ
max_brushes = 64

-- `s_next_brush`, which nothing changes.
abbrev pub next_brush : ℕ
next_brush = 0x00B0000

abbrev pub zero_dc : Dc
zero_dc = record {
  used = false;
  handle = 0;
  hwnd = 0;
  is_memdc = false;
  sel_bitmap = 0;
  text_color = 0;
  bk_color = 0;
  bk_mode = 0;
  cur_x = 0;
  cur_y = 0;
  font_px = 0;
  font_bold = false;
  font_name = [];
}

abbrev pub no_gdi : Gdi
no_gdi = record {
  dcs = replicate 32 zero_dc;
  next_dc = dc_base;
  brushes = replicate 64 (record { used = false; color = 0 });
}
