-- ===== src/Gdi/Blit.antt =====
-- Copying and stretching pictures in Sources/Win32/wg_win32_gdi.c: `dc_target`, `blit_pixels`,
-- `wg_gdi_draw_bitmap` and `wg_gdi_blit`.
use wine_glass.Base.{
  ℕ, zero, suc, ◌+◌, ◌-◌, ◌*◌, ◌/◌, ◌^◌, Bool, ◌&&◌, ◌||◌, Option, none, some, List, ltb, leb, ◌==◌,
  if◌then◌else◌, bit_and, bit_or, get_elem?,
}
use wine_glass.Base.Words.{u32, ◌<<<◌, ◌>>>◌, at_most_zero}
use wine_glass.Base.Fault.{◌>>=◌}
use wine_glass.Windows.Types.{WindowManager}
use wine_glass.Windows
use wine_glass.Windows.{get_client}
use wine_glass.Bitmaps.Types.{Bitmap, Bitmaps}
use wine_glass.Bitmaps
use wine_glass.Bitmaps.{pixels, write_px, with_px}
use wine_glass.Gdi.Types.{Dc, Gdi}
use wine_glass.Gdi.{find_dc, drawn, selected_bitmap}

-- `v + n` of an `int32_t` pattern and a number that is not negative; overflow is a fault.
unfoldable pub add_int : ℕ → ℕ → Option ℕ
add_int v n = if ltb v (2 ^ 31) && leb (2 ^ 31) (v + n) then none else some (u32 (v + n))

-- `v < 0 || v >= n`
abbrev pub off : ℕ → ℕ → Bool
off v n = leb (2 ^ 31) v || leb n v

-- `v + (k * s) / d`; the product must fit in an `int32_t`.
unfoldable pub scaled : ℕ → ℕ → ℕ → ℕ → Option ℕ
scaled v k s d = if leb (2 ^ 31) (k * s) then none else add_int v (k * s / d)

abbrev pub channel : ℕ → ℕ → ℕ
channel p k = bit_and (p >>> k) 0xFF

abbrev pub mix : ℕ → ℕ → ℕ → ℕ
mix s d a = (s * a + d * (255 - a)) / 255

unfoldable pub blended : ℕ → ℕ → ℕ → ℕ
blended s d a =
    bit_or
      (bit_or (bit_or (mix (channel s 0) (channel d 0) a) (mix (channel s 8) (channel d 8) a <<< 8))
        (mix (channel s 16) (channel d 16) a <<< 16))
      (0xFF <<< 24)

-- One pixel over another: opaque, transparent or between.
unfoldable pub put_over : List ℕ → ℕ → ℕ → Option (List ℕ)
put_over dst at s =
    let a = channel s 24 in
    if a == 0xFF
    then write_px dst at s
    else if a == 0
    then some dst
    else get_elem? dst at >>= λ d. write_px dst at (blended s d a)

-- The rectangles, and the sizes of source and target. The widths and heights are positive.
pub record Blit : Type 0 where
  pub dx : ℕ
  pub dy : ℕ
  pub dw : ℕ
  pub dh : ℕ
  pub src_w : ℕ
  pub src_h : ℕ
  pub sx : ℕ
  pub sy : ℕ
  pub sw : ℕ
  pub sh : ℕ
  pub tw : ℕ
  pub th : ℕ

module _ (p : Blit) (src : List ℕ → List ℕ) where
  -- Column `i`; `src` gives the source's words, which are those of the target where both are one
  -- bitmap.
  unfoldable pub blit_px : ℕ → ℕ → ℕ → List ℕ → Option (List ℕ)
  blit_px ddy ssy i dst = add_int p.dx i >>= λ ddx.
      let copied = scaled p.sx i p.sw p.dw >>= λ ssx.
      let over = get_elem? (src dst) (ssy * p.src_w + ssx) >>= put_over dst (ddy * p.tw + ddx) in
      if off ssx p.src_w then some dst else over in
      if off ddx p.tw then some dst else copied

  -- `n` columns from column `i` on.
  unfoldable pub blit_row : ℕ → ℕ → ℕ → ℕ → List ℕ → Option (List ℕ)
  blit_row ddy ssy zero i dst = some dst
  blit_row ddy ssy (suc n) i dst = blit_px ddy ssy i dst >>= λ dst'. blit_row ddy ssy n (i + 1) dst'

  unfoldable pub blit_line : ℕ → List ℕ → Option (List ℕ)
  blit_line j dst = add_int p.dy j >>= λ ddy.
      let copied = scaled p.sy j p.sh p.dh >>= λ ssy.
      if off ssy p.src_h then some dst else blit_row ddy ssy p.dw 0 dst in
      if off ddy p.th then some dst else copied

  -- `n` rows from row `j` on.
  unfoldable pub blit_rows : ℕ → ℕ → List ℕ → Option (List ℕ)
  blit_rows zero j dst = some dst
  blit_rows (suc n) j dst = blit_line j dst >>= λ dst'. blit_rows n (j + 1) dst'

pub record Screen : Type 0 where
  pub wm : WindowManager
  pub bitmaps : Bitmaps

-- What a context draws into.
pub data Target : Type 0 where
  nowhere : Target
  window : ℕ → List ℕ → ℕ → ℕ → Target
  bitmap : ℕ → List ℕ → ℕ → ℕ → Target

abbrev pub bitmap_target : ℕ → Option (Option (List ℕ) × ℕ × ℕ) → Target
bitmap_target h none = Target.nowhere
bitmap_target h (some (none, w, b)) = Target.nowhere
bitmap_target h (some (some px, w, b)) = Target.bitmap h px w b

abbrev pub window_target : ℕ → Bitmaps → WindowManager × Windows.Client → Screen × Target
window_target hwnd t (wm, none) = (record { wm = wm; bitmaps = t }, Target.nowhere)
window_target hwnd t (wm, some (fb, w, h)) =
    (record { wm = wm; bitmaps = t }, Target.window hwnd fb w h)

abbrev pub target_at : (ℕ → Bool) → Screen → Option (ℕ × Dc) → Option (Screen × Target)
target_at malloc s none = some (s, Target.nowhere)
target_at malloc s (some (i, dc)) =
    let client = get_client malloc s.wm dc.hwnd >>= λ r. some (window_target dc.hwnd s.bitmaps r) in
    if dc.is_memdc
    then some (s, bitmap_target dc.sel_bitmap (pixels s.bitmaps dc.sel_bitmap))
    else client

unfoldable pub dc_target : (ℕ → Bool) → Gdi → Screen → ℕ → Option (Screen × Target)
dc_target malloc g s hdc = target_at malloc s (find_dc g hdc)

abbrev pub store_px : Bitmaps → List ℕ → Option (ℕ × Bitmap) → Bitmaps
store_px t px none = t
store_px t px (some (i, bm)) = with_px t i bm px

-- A source bitmap that is the target's own is read as it is overwritten.
abbrev pub source_of : ℕ → ℕ → List ℕ → List ℕ → List ℕ
source_of hbitmap target px dst = if hbitmap == target then dst else px

unfoldable pub blit_to : Blit → ℕ → List ℕ → Screen × Target → Option Screen
blit_to p hbitmap px (s, Target.nowhere) = some s
blit_to p hbitmap px (s, Target.window hwnd fb w h) =
    blit_rows (record p { tw = w; th = h }) (λ dst. px) p.dh 0 fb >>= λ fb'.
    some (record s { wm = drawn s.wm fb' (Windows.find s.wm hwnd) })
blit_to p hbitmap px (s, Target.bitmap target dst w h) =
    blit_rows (record p { tw = w; th = h }) (source_of hbitmap target px) p.dh 0 dst >>= λ dst'.
    some (record s { bitmaps = store_px s.bitmaps dst' (Bitmaps.find s.bitmaps target) })

unfoldable pub blit_pixels : (ℕ → Bool) → Gdi → Screen → ℕ → Blit → ℕ → List ℕ → Option Screen
blit_pixels malloc g s hdc p hbitmap px =
    let blit = dc_target malloc g s hdc >>= blit_to p hbitmap px in
    if at_most_zero p.dw || at_most_zero p.dh || at_most_zero p.sw || at_most_zero p.sh
    then some s
    else blit

abbrev pub or_size : ℕ → ℕ → ℕ
or_size v size = if at_most_zero v then size else v

abbrev pub draw_from :
    (ℕ → Bool) → Gdi → Screen → ℕ → Blit → ℕ → Option (Option (List ℕ) × ℕ × ℕ) → Option Screen
draw_from malloc g s hdc p hbitmap none = some s
draw_from malloc g s hdc p hbitmap (some (none, bw, bh)) = some s
draw_from malloc g s hdc p hbitmap (some (some px, bw, bh)) =
    blit_pixels malloc g s hdc
      (record p {
        src_w = bw;
        src_h = bh;
        sw = or_size p.sw bw;
        sh = or_size p.sh bh;
        dw = or_size p.dw (or_size p.sw bw);
        dh = or_size p.dh (or_size p.sh bh);
      })
      hbitmap px

unfoldable pub draw_bitmap : (ℕ → Bool) → Gdi → Screen → ℕ → Blit → ℕ → Option Screen
draw_bitmap malloc g s hdc p hbitmap = draw_from malloc g s hdc p hbitmap (pixels s.bitmaps hbitmap)

unfoldable pub blit : (ℕ → Bool) → Gdi → Screen → ℕ → Blit → ℕ → Option Screen
blit malloc g s hdc_dst p hdc_src =
    let hbitmap = selected_bitmap g hdc_src in
    if hbitmap == 0 then some s else draw_bitmap malloc g s hdc_dst p hbitmap
