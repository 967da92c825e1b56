-- ===== src/Gdi/Tests.antt =====
-- Device contexts with a concrete window, brushes and bitmaps.
use wine_glass.Base.{
  ℕ, ◌≡◌, refl, true, false, some, List, [], ◌∷◌, replicate, set, arith, inl, inr,
}
use wine_glass.Base.Tables.{find_slot, free_slot}
use wine_glass.Windows.Types.{Window, WindowManager, zero_window, hwnd_base}
use wine_glass.Windows
use wine_glass.Windows.{find_first, with_client}
use wine_glass.Windows.Valid.{IsManager}
use wine_glass.Bitmaps.{write_px, copy_row}
use wine_glass.Gdi.Types.{Dc, Gdi, no_gdi, zero_dc}
use wine_glass.Gdi.{
  get_dc, find_dc, release_dc, change_dc, create_memory_dc, select_bitmap, selected_bitmap,
  create_solid_brush, brush_color, free_brush, fill_rect, colorref_to_rgba, strip_mnemonics,
  first_units, fill_rows, fill_buffer,
}
use wine_glass.Gdi.Captions.{escape, strip_mnemonics-escape}
use wine_glass.Gdi.Rect.{IsFilled, fill_rect-IsFilled}
use wine_glass.Gdi.Blit.{
  Blit, blit_rows, blit_line, blit_row, blit_px, put_over, add_int, scaled, blended,
}
use wine_glass.Gdi.Sums.{IsBlit}
use wine_glass.Gdi.Area.{AreaKept, blit_rows-AreaKept}

-- "Save && e&xit" for a text with one ampersand.
abbrev caption : List ℕ
caption = 0x53 ∷ 0x26 ∷ 0x65 ∷ []

strip_mnemonics-escape_example : strip_mnemonics 2 (escape caption) ≡ first_units 2 caption
strip_mnemonics-escape_example = strip_mnemonics-escape 2 caption

strip_marker : strip_mnemonics 255 (0x26 ∷ 0x4F ∷ 0x4B ∷ 0x26 ∷ []) ≡ 0x4F ∷ 0x4B ∷ []
unfolding strip_mnemonics
strip_marker = refl

first_context : (get_dc no_gdi 0x10000).1 ≡ 0x00DC0000
unfolding get_dc free_slot
first_context = refl

abbrev two_contexts : Gdi × ℕ
two_contexts = create_memory_dc no_gdi

abbrev with_bitmap : Gdi
with_bitmap = (select_bitmap two_contexts.0 0x00DC0000 0x00B10001).0

selected : selected_bitmap with_bitmap 0x00DC0000 ≡ 0x00B10001
unfolding selected_bitmap select_bitmap change_dc create_memory_dc find_slot free_slot
selected = refl

-- A window context in the slot of a released memory context keeps its bitmap.
stale_bitmap :
    selected_bitmap (get_dc (release_dc with_bitmap 0x00DC0000) 0x10000).0 0x00DC0001 ≡ 0x00B10001
unfolding get_dc release_dc selected_bitmap select_bitmap change_dc create_memory_dc find_slot
    free_slot
stale_bitmap = refl

brushes : brush_color (create_solid_brush no_gdi 0x00112233).0 0x00B0000 ≡ (0x00112233, true)
unfolding create_solid_brush free_brush brush_color
brushes = refl

-- A window of two by three pixels.
abbrev pane : Window
pane = record zero_window {
  handle = hwnd_base;
  alive = true;
  client = some (replicate 6 7);
  client_w = 2;
  client_h = 3;
}

abbrev one_window : WindowManager
one_window = record {
  windows = pane ∷ replicate 63 zero_window;
  count = 1;
  next_handle = 0x10001;
  dirty = false;
}

one_window-IsManager : IsManager one_window
one_window-IsManager = record {
  slots = refl;
  fits = omega arith;
  next = refl;
  numbered = (refl, tt);
}

abbrev context : Dc
context = record zero_dc { used = true; handle = 0x00DC0000; hwnd = hwnd_base }

abbrev one_context : Gdi
one_context = record no_gdi { dcs = context ∷ replicate 31 zero_dc }

find_context : find_dc one_context 0x00DC0000 ≡ some (0, context)
unfolding find_slot
find_context = refl

find-pane : Windows.find one_window hwnd_base ≡ some (0, pane)
unfolding find_first
find-pane = refl

pane_client : with_client (λ n. true) pane ≡ some (some pane)
unfolding with_client
pane_client = refl

-- From column -1 up to 1, and from row 1 down.
fill_rect-IsFilled_example :
    (fb' : List ℕ) × (fill_rect
        (λ n. true)
        one_context
        one_window
        0x00DC0000
        0xFFFFFFFF
        1
        1
        100
        0x00112233
      ≡ some (record one_window {
        windows = set one_window.windows 0 (record pane { client = some fb'; client_dirty = true });
      }))
    × IsFilled (colorref_to_rgba 0x00112233) 2 3 0xFFFFFFFF 1 1 100 (replicate 6 7) fb'
fill_rect-IsFilled_example =
    fill_rect-IsFilled (λ n. true) one_context one_window 0x00DC0000 0xFFFFFFFF 1 1 100 0x00112233 0
      0 context pane pane (replicate 6 7) one_window-IsManager find_context find-pane pane_client
      (refl, refl)

fill_clipped :
    fill_buffer 9 2 3 0xFFFFFFFF 1 1 100 (replicate 6 7) ≡ some (7 ∷ 7 ∷ 9 ∷ 7 ∷ 9 ∷ 7 ∷ [])
unfolding fill_buffer fill_rows copy_row write_px
fill_clipped = refl

-- Two by two pixels doubled, to a place that begins above the target.
abbrev doubled : Blit
doubled = record {
  dx = 1;
  dy = 0xFFFFFFFF;
  dw = 4;
  dh = 4;
  src_w = 2;
  src_h = 2;
  sx = 0;
  sy = 0;
  sw = 2;
  sh = 2;
  tw = 4;
  th = 2;
}

abbrev picture : List ℕ
picture = 0xFF000001 ∷ 0 ∷ 0x80FFFFFF ∷ 0xFF000004 ∷ []

doubled-IsBlit : IsBlit doubled
doubled-IsBlit = record {
  source_columns = omega arith;
  source_rows = omega arith;
  across = (omega arith, inr (omega arith));
  down = (omega arith, inl (omega arith));
  source_across = (omega arith, inr (omega arith));
  source_down = (omega arith, inr (omega arith));
  wide = omega arith;
  tall = omega arith;
}

doubled_rows :
    blit_rows doubled (λ dst. picture) 4 0 (replicate 8 0)
    ≡ some (0 ∷ 0xFF000001 ∷ 0xFF000001 ∷ 0 ∷ 0 ∷ 0xFF808080 ∷ 0xFF808080 ∷ 0xFF000004 ∷ [])
unfolding blit_rows blit_line blit_row blit_px put_over add_int scaled blended write_px
doubled_rows = refl

blit_rows-AreaKept_example :
    (dst' : List ℕ) × (blit_rows doubled (λ dst. picture) 4 0 (replicate 8 0) ≡ some dst')
    × AreaKept doubled 4 0 (replicate 8 0) dst'
blit_rows-AreaKept_example =
    blit_rows-AreaKept doubled (λ dst. picture) doubled-IsBlit (λ d e. refl) 4 0 (replicate 8 0)
      (omega arith) refl
