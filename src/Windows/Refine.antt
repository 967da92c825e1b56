-- ===== src/Windows/Refine.antt =====
-- The promise of Sources/Win32/wg_win32_windows.h without the table: a desktop maps handles to live
-- windows and counts the windows that were ever created.
use wine_glass.Base.{
  ℕ, zero, suc, ◌+◌, Bool, Option, none, some, List, leb, ◌==◌, if◌then◌else◌, replicate,
}
use wine_glass.Base.Fault.{◌>>=◌}
use wine_glass.Windows.Types.{Window, WindowManager, CreateParams, max_windows, hwnd_base}
use wine_glass.Windows
use wine_glass.Windows.{
  create_window, new_window, copy_title, shown, retitled, with_client, client_of, Client,
}
use wine_glass.Windows.Lookup.{look}

pub record Desktop : Type 0 where
  pub created : ℕ
  pub live : ℕ → Option Window

abbrev pub alter : (ℕ → Option Window) → ℕ → Option Window → ℕ → Option Window
alter f k v hwnd = if hwnd == k then v else f hwnd

abbrev pub view : WindowManager → Desktop
view wm = record { created = wm.count; live = look wm.count wm.windows }

-- The calls of a program.
pub data Call : Type 0 where
  create : CreateParams → Call
  show : ℕ → ℕ → Call
  destroy : ℕ → Call
  set_text : ℕ → Option (List ℕ) → Call
  get_client : ℕ → Call
  visible_count : Call
  reset : Call

pub data Answer : Type 0 where
  done : Answer
  number : ℕ → Answer
  pixels : Client → Answer

abbrev pub answer_number : WindowManager × ℕ → WindowManager × Answer
answer_number (wm, n) = (wm, Answer.number n)

abbrev pub answer_pixels : WindowManager × Client → WindowManager × Answer
answer_pixels (wm, c) = (wm, Answer.pixels c)

module _ (malloc : ℕ → Bool) where
  unfoldable pub step : Call → WindowManager → Option (WindowManager × Answer)
  step (Call.create p) wm = create_window wm p >>= λ r. some (answer_number r)
  step (Call.show hwnd cmd) wm = some (Windows.show wm hwnd cmd, Answer.done)
  step (Call.destroy hwnd) wm = some (Windows.destroy wm hwnd, Answer.done)
  step (Call.set_text hwnd text) wm =
      Windows.set_text wm hwnd text >>= λ wm'. some (wm', Answer.done)
  step (Call.get_client hwnd) wm = Windows.get_client malloc wm hwnd >>= λ r. some (answer_pixels r)
  step Call.visible_count wm = some (wm, Answer.number (Windows.visible_count wm))
  step Call.reset wm = some (Windows.reset wm, Answer.done)

abbrev pub alter_live : Desktop → ℕ → Option Window → Desktop
alter_live d hwnd v = record d { live = alter d.live hwnd v }

abbrev pub spec_create : Desktop → CreateParams → Option (Desktop × Answer)
spec_create d p =
    let handle = hwnd_base + d.created in
    let created = copy_title (replicate 256 0) p.title >>= λ title. some (
      record {
        created = suc d.created;
        live = alter d.live handle (some (new_window handle p title));
      },
      Answer.number handle,
    ) in
    if leb max_windows d.created then some (d, Answer.number 0) else created

abbrev pub spec_show : Desktop → ℕ → ℕ → Option Window → Desktop
spec_show d hwnd cmd none = d
spec_show d hwnd cmd (some w) = alter_live d hwnd (some (shown cmd w))

abbrev pub spec_destroy : Desktop → ℕ → Option Window → Desktop
spec_destroy d hwnd none = d
spec_destroy d hwnd (some w) = alter_live d hwnd none

abbrev pub spec_set_text : Desktop → ℕ → Option (List ℕ) → Option Window → Option (Desktop × Answer)
spec_set_text d hwnd text none = some (d, Answer.done)
spec_set_text d hwnd text (some w) =
    retitled text w >>= λ w'. some (alter_live d hwnd (some w'), Answer.done)

abbrev pub spec_put : Desktop → ℕ → Option Window → Desktop × Answer
spec_put d hwnd none = (d, Answer.pixels none)
spec_put d hwnd (some w) = (alter_live d hwnd (some w), Answer.pixels (client_of w))

abbrev pub spec_client : (ℕ → Bool) → Desktop → ℕ → Option Window → Option (Desktop × Answer)
spec_client malloc d hwnd none = some (d, Answer.pixels none)
spec_client malloc d hwnd (some w) = with_client malloc w >>= λ made. some (spec_put d hwnd made)

abbrev pub one_if_visible : Option Window → ℕ
one_if_visible none = 0
one_if_visible (some w) = if w.visible then 1 else 0

-- The visible windows among the `n` handles from `b` on.
unfoldable pub tally : ℕ → ℕ → (ℕ → Option Window) → ℕ
tally b zero f = 0
tally b (suc n) f = one_if_visible (f b) + tally (b + 1) n f

module _ (malloc : ℕ → Bool) where
  unfoldable pub spec_step : Call → Desktop → Option (Desktop × Answer)
  spec_step (Call.create p) d = spec_create d p
  spec_step (Call.show hwnd cmd) d = some (spec_show d hwnd cmd (d.live hwnd), Answer.done)
  spec_step (Call.destroy hwnd) d = some (spec_destroy d hwnd (d.live hwnd), Answer.done)
  spec_step (Call.set_text hwnd text) d = spec_set_text d hwnd text (d.live hwnd)
  spec_step (Call.get_client hwnd) d = spec_client malloc d hwnd (d.live hwnd)
  spec_step Call.visible_count d = some (d, Answer.number (tally hwnd_base d.created d.live))
  spec_step Call.reset d = some (record { created = 0; live = λ hwnd. none }, Answer.done)
