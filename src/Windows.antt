-- ===== src/Windows.antt =====
-- The window table of Sources/Win32/wg_win32_windows.c, function for function. A pointer to a window
-- is its slot together with the window that stands there.
pub mod Types
pub mod Valid
pub mod Lookup
pub mod Refine
pub mod Matches
pub mod Client
pub mod Runs
mod Tests
use wine_glass.Base.{
  ℕ, zero, suc, ◌+◌, ◌-◌, ◌*◌, ◌^◌, [], ◌∷◌, Bool, true, false, ◌&&◌, ◌||◌, not, Option, none, some,
  List, ltb, leb, ◌==◌, if◌then◌else◌, min, set, replicate,
}
use wine_glass.Base.Words.{u32, test_mask, at_most_zero}
use wine_glass.Base.Fault.{◌>>=◌}
use wine_glass.Windows.Types.{
  Window, WindowManager, CreateParams, max_windows, hwnd_base, titlebar_h, zero_window,
}

unfoldable pub wm_get : WindowManager → WindowManager
wm_get s = if s.next_handle == 0 then record s { next_handle = hwnd_base } else s

-- The end of the memory before a terminator is a fault.
abbrev pub utf16_len : List ℕ → Option ℕ
utf16_len [] = none
utf16_len (c ∷ s) =
    let rest = utf16_len s >>= (λ n. some (suc n)) in if c == 0 then some 0 else rest

-- `memcpy(dst, src, len * 2)`
abbrev pub copy_units : ℕ → List ℕ → List ℕ → List ℕ
copy_units zero src dst = dst
copy_units (suc len) (c ∷ src) (d ∷ dst) = c ∷ copy_units len src dst
copy_units (suc len) _ dst = dst

unfoldable pub copy_title : List ℕ → Option (List ℕ) → Option (List ℕ)
copy_title title none = some title
copy_title title (some text) = do
  n ← utf16_len text
  let len = if ltb 255 n then 255 else n
  some (set (copy_units len text title) len 0)

-- `v == (int32_t)0x80000000`
abbrev pub default_of : ℕ → ℕ → ℕ
default_of v fallback = if v == 0x80000000 then fallback else v

abbrev pub size_or : ℕ → ℕ → ℕ
size_or v fallback = let v = default_of v fallback in if at_most_zero v then fallback else v

unfoldable pub new_window : ℕ → CreateParams → List ℕ → Window
new_window handle p title = record zero_window {
  handle = handle;
  x = default_of p.x 100;
  y = default_of p.y 100;
  w = size_or p.w 640;
  h = size_or p.h 480;
  style = p.style;
  ex_style = p.ex_style;
  parent = p.parent;
  class_atom = p.class_atom;
  alive = true;
  visible = test_mask p.style 0x10000000;
  bg_color = 0x2D2D2D;
  needs_paint = true;
  title = title;
}

-- The new table, and the handle or 0.
unfoldable pub create_window : WindowManager → CreateParams → Option (WindowManager × ℕ)
create_window s p =
    let wm = wm_get s in
    let created = copy_title (replicate 256 0) p.title >>= λ title. some (
      record wm {
        windows = set wm.windows wm.count (new_window wm.next_handle p title);
        count = suc wm.count;
        next_handle = u32 (wm.next_handle + 1);
        dirty = true;
      },
      wm.next_handle,
    ) in
    if leb max_windows wm.count then some (wm, 0) else created

abbrev pub next_slot : Option (ℕ × Window) → Option (ℕ × Window)
next_slot none = none
next_slot (some (i, w)) = some (suc i, w)

-- The first `n` slots, in order. The table has as many.
unfoldable pub find_first : ℕ → List Window → ℕ → Option (ℕ × Window)
find_first zero ws hwnd = none
find_first (suc n) [] hwnd = none
find_first (suc n) (w ∷ ws) hwnd =
    let rest = next_slot (find_first n ws hwnd) in
    if (w.handle == hwnd) && w.alive then some (0, w) else rest

-- `wg_wm_find` on a table that `wg_wm_get` returned.
abbrev pub find : WindowManager → ℕ → Option (ℕ × Window)
find wm hwnd = find_first wm.count wm.windows hwnd

abbrev pub same_bool : Bool → Bool → Bool
same_bool true b = b
same_bool false b = not b

unfoldable pub shown : ℕ → Window → Window
shown cmd w = record w { visible = not (cmd == 0) }

abbrev pub show_at : WindowManager → ℕ → Option (ℕ × Window) → WindowManager
show_at wm cmd none = wm
show_at wm cmd (some (i, w)) = record wm {
  windows = set wm.windows i (shown cmd w);
  dirty = if same_bool w.visible (not (cmd == 0)) then wm.dirty else true;
}

unfoldable pub show : WindowManager → ℕ → ℕ → WindowManager
show s hwnd cmd = let wm = wm_get s in show_at wm cmd (find wm hwnd)

unfoldable pub destroyed : Window → Window
destroyed w = record w { alive = false; visible = false }

abbrev pub destroy_at : WindowManager → Option (ℕ × Window) → WindowManager
destroy_at wm none = wm
destroy_at wm (some (i, w)) = record wm { windows = set wm.windows i (destroyed w); dirty = true }

unfoldable pub destroy : WindowManager → ℕ → WindowManager
destroy s hwnd = let wm = wm_get s in destroy_at wm (find wm hwnd)

unfoldable pub reset : WindowManager → WindowManager
reset s = record {
  windows = replicate max_windows zero_window;
  count = 0;
  next_handle = hwnd_base;
  dirty = true;
}

-- The pixels with their width and height. NULL is `none` inside; a fault is `none` outside.
abbrev pub Client : Type 0
Client = Option (List ℕ × ℕ × ℕ)

abbrev pub at_least_one : ℕ → ℕ
at_least_one v = if at_most_zero v then 1 else v

-- `w->h - (w->parent == 0 ? WG_TITLEBAR_H : 0)`, which must not leave the range of `int32_t`.
unfoldable pub client_height : Window → Option ℕ
client_height w =
    if not (w.parent == 0)
    then some w.h
    else if leb (2 ^ 31) w.h && ltb w.h (2 ^ 31 + titlebar_h)
    then none
    else some (u32 (w.h + 2 ^ 32 - titlebar_h))

-- `malloc` says whether that many bytes can be allocated. The loop computes `cw * ch` as an
-- `int32_t`, which must fit.
unfoldable pub fill_client : (ℕ → Bool) → Window → ℕ → ℕ → Option (Option Window)
fill_client malloc w cw ch =
    if not (malloc (cw * ch * 4))
    then some none
    else if leb (2 ^ 31) (cw * ch)
    then none
    else some (
        some (record w {
          client = some (replicate (cw * ch) 0xFFF0F0F0);
          client_w = cw;
          client_h = ch;
          client_dirty = true;
        }))

unfoldable pub alloc_client : (ℕ → Bool) → Window → Option (Option Window)
alloc_client malloc w =
    client_height w >>= λ height. fill_client malloc w (at_least_one w.w) (at_least_one height)

abbrev pub client_of : Window → Client
client_of w = elim w.client [ none ↦ none | some px ↦ some (px, w.client_w, w.client_h) ]

unfoldable pub with_client : (ℕ → Bool) → Window → Option (Option Window)
with_client malloc w = elim w.client [ none ↦ alloc_client malloc w | some px ↦ some (some w) ]

abbrev pub put_client : WindowManager → ℕ → Option Window → WindowManager × Client
put_client wm i none = (wm, none)
put_client wm i (some w) = (record wm { windows = set wm.windows i w }, client_of w)

abbrev pub client_at :
    (ℕ → Bool) → WindowManager → Option (ℕ × Window) → Option (WindowManager × Client)
client_at malloc wm none = some (wm, none)
client_at malloc wm (some (i, w)) = with_client malloc w >>= λ made. some (put_client wm i made)

unfoldable pub get_client : (ℕ → Bool) → WindowManager → ℕ → Option (WindowManager × Client)
get_client malloc s hwnd = let wm = wm_get s in client_at malloc wm (find wm hwnd)

unfoldable pub retitled : Option (List ℕ) → Window → Option Window
retitled text w = copy_title w.title text >>= λ title. some (record w { title = title })

abbrev pub set_text_at :
    WindowManager → Option (List ℕ) → Option (ℕ × Window) → Option WindowManager
set_text_at wm text none = some wm
set_text_at wm text (some (i, w)) =
    retitled text w >>= λ w'. some (record wm { windows = set wm.windows i w'; dirty = true })

unfoldable pub set_text : WindowManager → ℕ → Option (List ℕ) → Option WindowManager
set_text s hwnd text = let wm = wm_get s in set_text_at wm text (find wm hwnd)

unfoldable pub count_visible : ℕ → List Window → ℕ
count_visible zero ws = 0
count_visible (suc n) [] = 0
count_visible (suc n) (w ∷ ws) = (if w.alive && w.visible then 1 else 0) + count_visible n ws

unfoldable pub visible_count : WindowManager → ℕ
visible_count s = let wm = wm_get s in count_visible wm.count wm.windows
