-- ===== src/Gdi.antt =====
-- The device contexts and the drawing of Sources/Win32/wg_win32_gdi.c, without the text that the host
-- draws. A context draws into the client buffer of a window (Windows) or into a bitmap (Bitmaps).
pub mod Types
pub mod Fill
pub mod Rect
pub mod Blit
pub mod Sums
pub mod Clip
pub mod Area
pub mod Captions
mod Tests
use wine_glass.Base.{
  ℕ, zero, suc, ◌+◌, ◌-◌, ◌*◌, ◌/◌, ◌^◌, [], ◌∷◌, Bool, true, false, ◌&&◌, ◌||◌, not, Option, none,
  some, List, ltb, leb, ◌==◌, if◌then◌else◌, bit_and, bit_or, set, get_elem?, length,
}
use wine_glass.Base.Words.{u32, ◌<<<◌, ◌>>>◌, at_most_zero}
use wine_glass.Base.Fault.{◌>>=◌}
use wine_glass.Base.Tables.{find_slot, free_slot}
use wine_glass.Windows.Types.{Window, WindowManager}
use wine_glass.Windows
use wine_glass.Windows.{get_client}
use wine_glass.Bitmaps.Types.{Bitmaps}
use wine_glass.Bitmaps.{pixels, copy_row, write_px}
use wine_glass.Gdi.Types.{Dc, Brush, Gdi, next_brush, max_brushes, zero_dc}

abbrev pub dc_used : Dc → Bool
dc_used d = d.used

abbrev pub dc_handle : Dc → ℕ
dc_handle d = d.handle

abbrev pub find_dc : Gdi → ℕ → Option (ℕ × Dc)
find_dc g hdc = find_slot dc_used dc_handle g.dcs hdc

-- COLORREF (0x00BBGGRR) to the word of the framebuffer.
unfoldable pub colorref_to_rgba : ℕ → ℕ
colorref_to_rgba cr =
    bit_or
      (bit_or (bit_or (bit_and cr 0xFF) (bit_and (cr >>> 8) 0xFF <<< 8))
        (bit_and (cr >>> 16) 0xFF <<< 16))
      (0xFF <<< 24)

-- The slot keeps `is_memdc` and `sel_bitmap`.
abbrev pub window_dc : ℕ → ℕ → Dc → Dc
window_dc handle hwnd d = record d {
  used = true;
  handle = handle;
  hwnd = hwnd;
  text_color = 0;
  bk_color = 0x00FFFFFF;
  bk_mode = 2;
  cur_x = 0;
  cur_y = 0;
  font_px = 13;
  font_bold = false;
  font_name = [];
}

abbrev pub memory_dc : ℕ → Dc
memory_dc handle = record zero_dc {
  used = true;
  handle = handle;
  is_memdc = true;
  bk_color = 0x00FFFFFF;
  bk_mode = 2;
}

abbrev pub with_dc : Gdi → ℕ → Dc → Gdi × ℕ
with_dc g i d = (record g { dcs = set g.dcs i d; next_dc = u32 (g.next_dc + 1) }, g.next_dc)

abbrev pub open_dc : Gdi → ℕ → Option (ℕ × Dc) → Gdi × ℕ
open_dc g hwnd none = (g, 0)
open_dc g hwnd (some (i, d)) = with_dc g i (window_dc g.next_dc hwnd d)

-- The contexts, and the handle or 0.
unfoldable pub get_dc : Gdi → ℕ → Gdi × ℕ
get_dc g hwnd = open_dc g hwnd (free_slot dc_used dc_handle g.dcs)

abbrev pub open_memory_dc : Gdi → Option (ℕ × Dc) → Gdi × ℕ
open_memory_dc g none = (g, 0)
open_memory_dc g (some (i, d)) = with_dc g i (memory_dc g.next_dc)

unfoldable pub create_memory_dc : Gdi → Gdi × ℕ
create_memory_dc g = open_memory_dc g (free_slot dc_used dc_handle g.dcs)

-- What the setters have in common: the found context is changed in place.
abbrev pub change_at : Gdi → (Dc → Dc) → Option (ℕ × Dc) → Gdi
change_at g f none = g
change_at g f (some (i, d)) = record g { dcs = set g.dcs i (f d) }

unfoldable pub change_dc : Gdi → ℕ → (Dc → Dc) → Gdi
change_dc g hdc f = change_at g f (find_dc g hdc)

-- `wg_gdi_delete_dc` is the same function.
unfoldable pub release_dc : Gdi → ℕ → Gdi
release_dc g hdc = change_dc g hdc (λ d. record d { used = false })

unfoldable pub set_text_color : Gdi → ℕ → ℕ → Gdi
set_text_color g hdc cr = change_dc g hdc (λ d. record d { text_color = cr })

unfoldable pub set_bk_mode : Gdi → ℕ → ℕ → Gdi
set_bk_mode g hdc mode = change_dc g hdc (λ d. record d { bk_mode = mode })

unfoldable pub set_bk_color : Gdi → ℕ → ℕ → Gdi
set_bk_color g hdc cr = change_dc g hdc (λ d. record d { bk_color = cr })

unfoldable pub move_to : Gdi → ℕ → ℕ → ℕ → Gdi
move_to g hdc x y = change_dc g hdc (λ d. record d { cur_x = x; cur_y = y })

abbrev pub first_units : ℕ → List ℕ → List ℕ
first_units zero xs = []
first_units (suc n) [] = []
first_units (suc n) (x ∷ xs) = x ∷ first_units n xs

abbrev pub name_or_empty : Option (List ℕ) → List ℕ
name_or_empty none = []
name_or_empty (some name) = first_units 63 name

unfoldable pub select_font : Gdi → ℕ → ℕ → Bool → Option (List ℕ) → Gdi
select_font g hdc px bold name = change_dc g hdc (λ d. record d {
  font_px = if at_most_zero px then d.font_px else px;
  font_bold = bold;
  font_name = name_or_empty name;
})

abbrev pub bitmap_of : Option (ℕ × Dc) → ℕ
bitmap_of none = 0
bitmap_of (some (i, d)) = d.sel_bitmap

-- The contexts, and the bitmap that was selected before.
unfoldable pub select_bitmap : Gdi → ℕ → ℕ → Gdi × ℕ
select_bitmap g hdc hbitmap =
    (change_dc g hdc (λ d. record d { sel_bitmap = hbitmap }), bitmap_of (find_dc g hdc))

unfoldable pub selected_bitmap : Gdi → ℕ → ℕ
selected_bitmap g hdc = bitmap_of (find_dc g hdc)

abbrev pub next_index : Option ℕ → Option ℕ
next_index none = none
next_index (some i) = some (suc i)

-- The first brush that is not in use.
unfoldable pub free_brush : List Brush → Option ℕ
free_brush [] = none
free_brush (b ∷ brushes) =
    let rest = next_index (free_brush brushes) in if b.used then rest else some 0

abbrev pub make_brush : Gdi → ℕ → Option ℕ → Gdi × ℕ
make_brush g cr none = (g, next_brush)
make_brush g cr (some i) =
    (record g { brushes = set g.brushes i (record { used = true; color = cr }) }, next_brush + i)

unfoldable pub create_solid_brush : Gdi → ℕ → Gdi × ℕ
create_solid_brush g cr = make_brush g cr (free_brush g.brushes)

abbrev pub color_of : Option Brush → ℕ × Bool
color_of none = (0x00FFFFFF, false)
color_of (some b) = if b.used then (b.color, true) else (0x00FFFFFF, false)

-- The colour, and whether there is such a brush. A handle below the first one gives a negative index
-- or one behind the table.
unfoldable pub brush_color : Gdi → ℕ → ℕ × Bool
brush_color g hbrush =
    let i = u32 (hbrush + 2 ^ 32 - next_brush) in
    if ltb i max_brushes then color_of (get_elem? g.brushes i) else (0x00FFFFFF, false)

-- `l < 0 ? 0 : l`, and the end of a loop up to `r`, cut to `w`; no round is made for a negative end.
abbrev pub cut_low : ℕ → ℕ
cut_low v = if leb (2 ^ 31) v then 0 else v

abbrev pub cut_high : ℕ → ℕ → ℕ
cut_high v w = if leb (2 ^ 31) v then 0 else if ltb w v then w else v

-- `n` rows of `cols` columns, from row `y` and column `l` on.
unfoldable pub fill_rows : ℕ → ℕ → ℕ → ℕ → ℕ → ℕ → List ℕ → Option (List ℕ)
fill_rows rgba w l cols zero y fb = some fb
fill_rows rgba w l cols (suc n) y fb =
    copy_row (λ x. some rgba) cols l (y * w) fb >>= λ fb'. fill_rows rgba w l cols n (y + 1) fb'

unfoldable pub fill_buffer : ℕ → ℕ → ℕ → ℕ → ℕ → ℕ → ℕ → List ℕ → Option (List ℕ)
fill_buffer rgba w h l t r b fb =
    let l = cut_low l in
    let t = cut_low t in fill_rows rgba w l (cut_high r w - l) (cut_high b h - t) t fb

-- The buffer of the found window is drawn into, and the window is dirty.
abbrev pub drawn : WindowManager → List ℕ → Option (ℕ × Window) → WindowManager
drawn wm fb none = wm
drawn wm fb (some (i, win)) = record wm {
  windows = set wm.windows i (record win { client = some fb; client_dirty = true });
}

abbrev pub fill_client_at :
    ℕ → ℕ → ℕ → ℕ → ℕ → ℕ → WindowManager × Windows.Client → Option WindowManager
fill_client_at hwnd rgba l t r b (wm, none) = some wm
fill_client_at hwnd rgba l t r b (wm, some (fb, w, h)) =
    fill_buffer rgba w h l t r b fb >>= λ fb'. some (drawn wm fb' (Windows.find wm hwnd))

abbrev pub fill_at :
    (ℕ → Bool) → WindowManager → ℕ → ℕ → ℕ → ℕ → ℕ → Option (ℕ × Dc) → Option WindowManager
fill_at malloc wm l t r b cr none = some wm
fill_at malloc wm l t r b cr (some (i, dc)) =
    get_client malloc wm dc.hwnd >>= fill_client_at dc.hwnd (colorref_to_rgba cr) l t r b

unfoldable pub fill_rect :
    (ℕ → Bool) → Gdi → WindowManager → ℕ → ℕ → ℕ → ℕ → ℕ → ℕ → Option WindowManager
fill_rect malloc g wm hdc l t r b cr = fill_at malloc wm l t r b cr (find_dc g hdc)

-- Captions: a single `&` is dropped, and `&&` gives one. At most `room` units are kept.
unfoldable pub strip_mnemonics : ℕ → List ℕ → List ℕ
strip_mnemonics room [] = []
strip_mnemonics zero (c ∷ text) = []
strip_mnemonics (suc room) (c ∷ []) = if c == 0x26 then [] else c ∷ []
strip_mnemonics (suc room) (c ∷ d ∷ text) = elim (c == 0x26) [
  | false ↦ c ∷ strip_mnemonics room (d ∷ text)
  | true ↦ elim (d == 0x26) [
    | true ↦ 0x26 ∷ strip_mnemonics room text
    | false ↦ strip_mnemonics (suc room) (d ∷ text)
  ]
]

-- `clean` of `wg_gdi_text_out_caption` and of `wg_gdi_text_box`.
abbrev pub clean_caption : List ℕ → List ℕ
clean_caption text = strip_mnemonics 255 text

abbrev pub clean_box : List ℕ → List ℕ
clean_box text = strip_mnemonics 511 text
