-- ===== src/Bitmaps.antt =====
-- The bitmaps of Sources/Win32/wg_win32_bitmap.c, function for function. A pointer into memory is the
-- list of the bytes from there on; a read behind them is a fault, and so is a write behind a buffer.
pub mod Types
pub mod Loops
pub mod Images
pub mod Colours
pub mod Pixels
pub mod Handles
pub mod Errors
mod Tests
use wine_glass.Base.{
  ℕ, zero, suc, ◌+◌, ◌-◌, ◌*◌, ◌/◌, ◌^◌, [], ◌∷◌, Bool, true, false, ◌&&◌, ◌||◌, not, Option, none,
  some, List, ltb, leb, ◌==◌, if◌then◌else◌, bit_and, bit_or, set, replicate, get_elem?, length,
  drop, map,
}
use wine_glass.Base.Words.{u16, u32, not64, ◌<<<◌, at_most_zero}
use wine_glass.Base.Fault.{◌>>=◌}
use wine_glass.Base.Tables.{find_slot, free_slot}
use wine_glass.Bitmaps.Types.{Bitmap, Bitmaps, DibHeader, hbitmap_base, no_bitmap}

abbrev pub is_used : Bitmap → Bool
is_used b = b.used

abbrev pub handle_of : Bitmap → ℕ
handle_of b = b.handle

abbrev pub find : Bitmaps → ℕ → Option (ℕ × Bitmap)
find t h = find_slot is_used handle_of t.bmps h

-- `w <= 0 || h <= 0 || w > 16384 || h > 16384`
abbrev pub bad_size : ℕ → ℕ → Bool
bad_size w h = at_most_zero w || at_most_zero h || ltb 16384 w || ltb 16384 h

abbrev pub fresh_bitmap : ℕ → ℕ → ℕ → Bitmap
fresh_bitmap handle w h = record {
  used = true;
  handle = handle;
  w = w;
  h = h;
  px = some (replicate (w * h) 0);
}

abbrev pub take_slot :
    (ℕ → Bool) → Bitmaps → ℕ → ℕ → Option (ℕ × Bitmap) → Bitmaps × Option (ℕ × Bitmap)
take_slot calloc t w h none = (t, none)
take_slot calloc t w h (some (i, old)) =
    if calloc (w * h * 4)
    then (
      record { bmps = set t.bmps i (fresh_bitmap t.next w h); next = u32 (t.next + 1) },
      some (i, fresh_bitmap t.next w h),
    )
    else (record t { bmps = set t.bmps i (record old { px = none }) }, none)

-- The table, and the slot with the new bitmap or NULL. `calloc` says whether there is room.
unfoldable pub alloc_slot : (ℕ → Bool) → Bitmaps → ℕ → ℕ → Bitmaps × Option (ℕ × Bitmap)
alloc_slot calloc t w h =
    if bad_size w h then (t, none) else take_slot calloc t w h (free_slot is_used handle_of t.bmps)

unfoldable pub rd32 : List ℕ → ℕ → Option ℕ
rd32 p i = do
  b0 ← get_elem? p i
  b1 ← get_elem? p (i + 1)
  b2 ← get_elem? p (i + 2)
  b3 ← get_elem? p (i + 3)
  some (bit_or (bit_or (bit_or b0 (b1 <<< 8)) (b2 <<< 16)) (b3 <<< 24))

unfoldable pub rd16 : List ℕ → ℕ → Option ℕ
rd16 p i = do b0 ← get_elem? p i; b1 ← get_elem? p (i + 1); some (u16 (bit_or b0 (b1 <<< 8)))

abbrev pub pack : ℕ → ℕ → ℕ → ℕ → ℕ
pack r g b a = bit_or (bit_or (bit_or r (g <<< 8)) (b <<< 16)) (a <<< 24)

unfoldable pub read_header : List ℕ → Option DibHeader
read_header bih = do
  size ← rd32 bih 0
  w ← rd32 bih 4
  h ← rd32 bih 8
  bpp ← rd16 bih 14
  comp ← rd32 bih 16
  clr_used ← rd32 bih 32
  some (record { size = size; w = w; h = h; bpp = bpp; comp = comp; clr_used = clr_used })

abbrev pub top_down : DibHeader → Bool
top_down d = leb (2 ^ 31) d.h

-- `top_down ? -biH : biH`, which overflows for the least `int32_t`.
unfoldable pub height : DibHeader → Option ℕ
height d = if top_down d then (if d.h == 2 ^ 31 then none else some (2 ^ 32 - d.h)) else some d.h

abbrev pub pal_n : DibHeader → ℕ
pal_n d = if not (d.clr_used == 0) then d.clr_used else if leb d.bpp 8 then 1 <<< d.bpp else 0

unfoldable pub rgb_pixel : List ℕ → ℕ → Option ℕ
rgb_pixel bits i = do
  b ← get_elem? bits i
  g ← get_elem? bits (i + 1)
  r ← get_elem? bits (i + 2)
  some (pack r g b 0xFF)

unfoldable pub palette_pixel : DibHeader → List ℕ → ℕ → Option ℕ
palette_pixel d bih idx =
    if ltb idx (pal_n d) then rgb_pixel bih (d.size + idx * 4) else some (pack idx idx idx 0xFF)

unfoldable pub rgba_pixel : List ℕ → ℕ → Option ℕ
rgba_pixel bits i = do
  b ← get_elem? bits i
  g ← get_elem? bits (i + 1)
  r ← get_elem? bits (i + 2)
  a ← get_elem? bits (i + 3)
  some (pack r g b (if not (a == 0) then a else 0xFF))

-- The pixel in column `x` of the row at `row`.
unfoldable pub source_pixel : DibHeader → List ℕ → List ℕ → ℕ → ℕ → Option ℕ
source_pixel d bih bits row x =
    if d.bpp == 8
    then get_elem? bits (row + x) >>= palette_pixel d bih
    else if d.bpp == 24
    then rgb_pixel bits (row + x * 3)
    else rgba_pixel bits (row + x * 4)

abbrev pub stride : DibHeader → ℕ
stride d = bit_and (d.w * (d.bpp / 8) + 3) (not64 3)

unfoldable pub write_px : List ℕ → ℕ → ℕ → Option (List ℕ)
write_px px i v = if ltb i (length px) then some (set px i v) else none

-- `n` columns from `x` on, of the row that starts at `base`.
unfoldable pub copy_row : (ℕ → Option ℕ) → ℕ → ℕ → ℕ → List ℕ → Option (List ℕ)
copy_row source zero x base px = some px
copy_row source (suc n) x base px =
    source x >>= λ v. write_px px (base + x) v >>= λ px'. copy_row source n (x + 1) base px'

-- BMP rows stand bottom up unless the height is negative.
abbrev pub dest_row : Bool → ℕ → ℕ → ℕ
dest_row td h y = if td then y else h - 1 - y

-- `n` rows from `y` on.
unfoldable pub copy_rows : (ℕ → ℕ → Option ℕ) → Bool → ℕ → ℕ → ℕ → ℕ → List ℕ → Option (List ℕ)
copy_rows source td w h zero y px = some px
copy_rows source td w h (suc n) y px = copy_row (source y) w 0 (dest_row td h y * w) px >>= λ px'.
    copy_rows source td w h n (y + 1) px'

abbrev pub with_px : Bitmaps → ℕ → Bitmap → List ℕ → Bitmaps
with_px t i bm px = record t { bmps = set t.bmps i (record bm { px = some px }) }

abbrev pub dib_rows :
    DibHeader → List ℕ → List ℕ → ℕ → ℕ → Bitmaps → Option (ℕ × Bitmap) → Option (Bitmaps × ℕ)
dib_rows d bih bits cap h t none = some (t, 0)
dib_rows d bih bits cap h t (some (i, bm)) =
    let filled =
      copy_rows (λ y. source_pixel d bih bits (y * stride d)) (top_down d) d.w h h 0
        (replicate (d.w * h) 0)
      >>= λ px. some (with_px t i bm px, bm.handle) in
    if not (cap == 0) && ltb cap (stride d * h) then some (t, bm.handle) else filled

abbrev pub bad_depth : ℕ → Bool
bad_depth bpp = not (bpp == 8) && not (bpp == 24) && not (bpp == 32)

unfoldable pub decode_sized :
    (ℕ → Bool) → Bitmaps → DibHeader → List ℕ → List ℕ → ℕ → ℕ → Option (Bitmaps × ℕ)
decode_sized calloc t d bih bits cap h =
    let slot = alloc_slot calloc t d.w h in
    if bad_size d.w h
    then some (t, 0)
    else if bad_depth d.bpp
    then some (t, 0)
    else dib_rows d bih bits cap h slot.0 slot.1

-- The table, and the handle or 0.
unfoldable pub decode_dib : (ℕ → Bool) → Bitmaps → List ℕ → List ℕ → ℕ → Option (Bitmaps × ℕ)
decode_dib calloc t bih bits cap = read_header bih >>= λ d.
    if ltb d.size 40
    then some (t, 0)
    else if not (d.comp == 0)
    then some (t, 0)
    else height d >>= decode_sized calloc t d bih bits cap

-- The log line reads the bitmap that is found.
abbrev pub logged : Bitmaps × ℕ → Option (Bitmaps × ℕ)
logged (t, h) = if h == 0 then some (t, h) else find t h >>= λ bm. some (t, h)

unfoldable pub from_bmp_memory : (ℕ → Bool) → Bitmaps → Option (List ℕ) → ℕ → Option (Bitmaps × ℕ)
from_bmp_memory calloc t none len = some (t, 0)
from_bmp_memory calloc t (some file) len =
    let decoded = rd32 file 10 >>= λ off_bits.
    if leb len off_bits
    then some (t, 0)
    else decode_dib calloc t (drop 14 file) (drop off_bits file) (len - off_bits) >>= logged in
    let second = get_elem? file 1 >>= λ m. if not (m == 0x4D) then some (t, 0) else decoded in
    let first = get_elem? file 0 >>= λ b. if not (b == 0x42) then some (t, 0) else second in
    if ltb len 54 then some (t, 0) else first

unfoldable pub from_dib : (ℕ → Bool) → Bitmaps → List ℕ → List ℕ → Option (Bitmaps × ℕ)
from_dib calloc t bih bits = decode_dib calloc t bih bits 0

-- `fopen` gives the bytes of the file, `fread` the count that it reads of them.
unfoldable pub load_file :
    {P : Type 0}
    → (P → Option (List ℕ))
    → (List ℕ → ℕ)
    → (ℕ → Bool)
    → (ℕ → Bool)
    → Bitmaps
    → Option P
    → Option (Bitmaps × ℕ)
load_file fopen fread malloc calloc t none = some (t, 0)
load_file fopen fread malloc calloc t (some path) = elim (fopen path) [
  | none ↦ some (t, 0)
  | some file ↦
      let n = length file in
      if ltb n 54 || ltb (64 * 1024 * 1024) n
      then some (t, 0)
      else if not (malloc n)
      then some (t, 0)
      else if fread file == n
      then from_bmp_memory calloc t (some file) (u32 n)
      else some (t, 0)
]

abbrev pub handle_or_null : Option (ℕ × Bitmap) → ℕ
handle_or_null none = 0
handle_or_null (some (i, bm)) = bm.handle

unfoldable pub create : (ℕ → Bool) → Bitmaps → ℕ → ℕ → Bitmaps × ℕ
create calloc t w h = let slot = alloc_slot calloc t w h in (slot.0, handle_or_null slot.1)

unfoldable pub pixels : Bitmaps → ℕ → Option (Option (List ℕ) × ℕ × ℕ)
pixels t h = elim (find t h) [ none ↦ none | some (i, bm) ↦ some (bm.px, bm.w, bm.h) ]

unfoldable pub is_bitmap : Bitmaps → ℕ → Bool
is_bitmap t h = elim (find t h) [ none ↦ false | some (i, bm) ↦ true ]

abbrev pub freed : Bitmap → Bitmap
freed bm = record bm { px = none; used = false }

abbrev pub delete_at : Bitmaps → Option (ℕ × Bitmap) → Bitmaps
delete_at t none = t
delete_at t (some (i, bm)) = record t { bmps = set t.bmps i (freed bm) }

unfoldable pub delete : Bitmaps → ℕ → Bitmaps
delete t h = delete_at t (find t h)

unfoldable pub reset_all : Bitmaps → Bitmaps
reset_all t = record {
  bmps = map (λ bm. if bm.used then freed bm else bm) t.bmps;
  next = hbitmap_base;
}
