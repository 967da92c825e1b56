-- ===== src/Windows/Client.antt =====
-- One call of Sources/Win32/wg_win32_windows.h on a table against the same call on a desktop.
use wine_glass.Base.{
  ℕ, zero, suc, ◌+◌, ◌≤◌, ◌≡◌, refl, sym, ap, ◌∙◌, Bool, true, false, ◌&&◌, Option, none, some,
  List, [], ◌∷◌, arith, ◌==◌, if◌then◌else◌, replicate, length, length-replicate,
}
use wine_glass.Windows.Types.{Window, WindowManager, zero_window, hwnd_base}
use wine_glass.Windows
use wine_glass.Windows.{find, count_visible}
use wine_glass.Windows.Valid.{Numbered, IsManager}
use wine_glass.Windows.Lookup.{look, look-cons, look-below}
use wine_glass.Windows.Refine.{view, Call, Answer, step, spec_step, one_if_visible, tally}
use wine_glass.Windows.Matches.{
  Matches, wm_get_ready, look_found, show-Matches, destroy-Matches, set_text-Matches,
  client-Matches, create-Matches,
}

tally-ext :
    (b n : ℕ) (f g : ℕ → Option Window) → ((k : ℕ) → b ≤ k → f k ≡ g k) → tally b n f ≡ tally b n g
unfolding tally
tally-ext b zero f g h = refl
tally-ext b (suc n) f g h = omega (
  arith,
  ap one_if_visible (h b (omega arith)),
  tally-ext (b + 1) n f g (λ k l. h k (omega (arith, l))),
)

first_visible :
    (n : ℕ) (w : Window) (ws : List Window)
    → look n ws w.handle ≡ none
    → one_if_visible (look (suc n) (w ∷ ws) w.handle) ≡ (if w.alive && w.visible then 1 else 0)
first_visible n w ws gone = ground (arith, look-cons n w ws w.handle)

count_visible-tally :
    (b n : ℕ) (ws : List Window)
    → Numbered b n ws
    → n ≤ length ws
    → count_visible n ws ≡ tally b n (look n ws)
unfolding count_visible tally
count_visible-tally b zero ws v h = refl
count_visible-tally b (suc n) [] v h = absurd v
count_visible-tally b (suc n) (w ∷ ws) v h =
    let gone : look n ws w.handle ≡ none =
      look-below (b + 1) n ws w.handle v.1 (omega (arith, v.0)) in
    let later = tally-ext (b + 1) n (look (suc n) (w ∷ ws)) (look n ws) (λ k l.
      let ne : (w.handle == k) ≡ false = ground (arith, v.0) in look-cons n w ws k ∙ rw ne refl) in
    omega (
      arith,
      first_visible n w ws gone,
      ap (λ k. one_if_visible (look (suc n) (w ∷ ws) k)) v.0,
      later,
      count_visible-tally (b + 1) n ws v.1 (omega (arith, h)),
    )

look-empty : look 0 (replicate 64 zero_window) ≡ (λ hwnd. none)
unfolding look Windows.find_first
look-empty = refl

pub fresh-IsManager :
    (dirty : Bool)
    → IsManager (record {
      windows = replicate 64 zero_window;
      count = 0;
      next_handle = hwnd_base;
      dirty = dirty;
    })
fresh-IsManager dirty = record {
  slots = length-replicate 64 zero_window;
  fits = omega arith;
  next = refl;
  numbered = tt;
}

pub step-Matches :
    (malloc : ℕ → Bool) (c : Call) (wm : WindowManager)
    → IsManager wm
    → Matches (step malloc c wm) (spec_step malloc c (view wm))
unfolding step spec_step Windows.show Windows.destroy Windows.set_text Windows.get_client
    Windows.reset Windows.visible_count
step-Matches malloc (Call.create p) wm v = create-Matches wm p v
step-Matches malloc (Call.show hwnd cmd) wm v =
    rw (wm_get_ready wm v, look_found wm hwnd refl) (show-Matches wm hwnd v cmd (find wm hwnd) refl)
step-Matches malloc (Call.destroy hwnd) wm v =
    rw (wm_get_ready wm v, look_found wm hwnd refl) (destroy-Matches wm hwnd v (find wm hwnd) refl)
step-Matches malloc (Call.set_text hwnd text) wm v =
    rw (wm_get_ready wm v, look_found wm hwnd refl)
      (set_text-Matches wm hwnd v text (find wm hwnd) refl)
step-Matches malloc (Call.get_client hwnd) wm v =
    rw (wm_get_ready wm v, look_found wm hwnd refl)
      (client-Matches malloc wm hwnd (find wm hwnd) v refl)
step-Matches malloc Call.visible_count wm v = rw (wm_get_ready wm v) (
  v,
  ap (λ n. some (view wm, Answer.number n))
      (sym (
        count_visible-tally hwnd_base wm.count wm.windows v.numbered
          (omega (arith, v.slots, v.fits)))),
)
step-Matches malloc Call.reset wm v = (
  fresh-IsManager true,
  ap (λ (f : ℕ → Option Window). some (record { created = 0; live = f }, Answer.done))
      (sym look-empty),
)
