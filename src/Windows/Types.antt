-- ===== src/Windows/Types.antt =====
-- The data of Sources/Win32/wg_win32_windows.h: windows and the table of windows.
use wine_glass.Base.{ℕ, Bool, false, Option, none, List, replicate}

-- Positions and sizes are patterns of 32 bits. `client` is the buffer of the client area.
pub record Window : Type 0 where
  pub handle : ℕ
  pub x : ℕ
  pub y : ℕ
  pub w : ℕ
  pub h : ℕ
  pub title : List ℕ
  pub visible : Bool
  pub alive : Bool
  pub style : ℕ
  pub ex_style : ℕ
  pub bg_color : ℕ
  pub parent : ℕ
  pub class_atom : ℕ
  pub needs_paint : Bool
  pub wndproc : ℕ
  pub client : Option (List ℕ)
  pub client_w : ℕ
  pub client_h : ℕ
  pub client_dirty : Bool

pub record WindowManager : Type 0 where
  pub windows : List Window
  pub count : ℕ
  pub next_handle : ℕ
  pub dirty : Bool

abbrev pub max_windows : ℕ
max_windows = 64

abbrev pub hwnd_base : ℕ
hwnd_base = 0x10000

abbrev pub titlebar_h : ℕ
titlebar_h = 32

abbrev pub zero_window : Window
zero_window = record {
  handle = 0;
  x = 0;
  y = 0;
  w = 0;
  h = 0;
  title = replicate 256 0;
  visible = false;
  alive = false;
  style = 0;
  ex_style = 0;
  bg_color = 0;
  parent = 0;
  class_atom = 0;
  needs_paint = false;
  wndproc = 0;
  client = none;
  client_w = 0;
  client_h = 0;
  client_dirty = false;
}

-- `static WGWindowManager s_wm = {0}`
abbrev pub s_wm : WindowManager
s_wm = record { windows = replicate 64 zero_window; count = 0; next_handle = 0; dirty = false }

-- The arguments of `wg_wm_create_window`. A title is the memory from its pointer on, `none` for NULL.
pub record CreateParams : Type 0 where
  pub ex_style : ℕ
  pub class_atom : ℕ
  pub title : Option (List ℕ)
  pub style : ℕ
  pub x : ℕ
  pub y : ℕ
  pub w : ℕ
  pub h : ℕ
  pub parent : ℕ
