-- ===== src/Windows/Tests.antt =====
-- The window table with concrete windows.
use wine_glass.Base.{
  ℕ, ◌≡◌, refl, zero, suc, ◌+◌, true, false, Option, none, some, List, [], ◌∷◌, arith, replicate,
}
use wine_glass.Windows.Types.{Window, WindowManager, CreateParams, s_wm, zero_window, hwnd_base}
use wine_glass.Windows.{
  wm_get, create_window, find_first, new_window, copy_title, show, shown, destroy, destroyed,
  set_text, retitled, get_client, with_client, alloc_client, fill_client, client_height,
  visible_count, count_visible,
}
use wine_glass.Windows.Valid.{IsManager}
use wine_glass.Windows.Refine.{view, Call, Answer, step}
use wine_glass.Windows.Matches.{Matches}
use wine_glass.Windows.Client.{fresh-IsManager}
use wine_glass.Windows.Runs.{run, replay, run-replay, run_exhausted}

abbrev ready : WindowManager
ready = record {
  windows = replicate 64 zero_window;
  count = 0;
  next_handle = hwnd_base;
  dirty = false;
}

wm_get_first : wm_get s_wm ≡ ready
unfolding wm_get
wm_get_first = refl

abbrev plain : CreateParams
plain = record {
  ex_style = 0;
  class_atom = 0;
  title = some (0x48 ∷ 0x69 ∷ 0 ∷ []);
  style = 0x10CF0000;
  x = 0x80000000;
  y = 5;
  w = 4;
  h = 40;
  parent = 0;
}

abbrev calls : List Call
calls =
    Call.create plain
    ∷ Call.visible_count
    ∷ Call.get_client 0x10000
    ∷ Call.set_text 0x10000 (some (0x41 ∷ 0 ∷ []))
    ∷ Call.create plain
    ∷ Call.show 0x10001 0
    ∷ Call.destroy 0x10000
    ∷ Call.get_client 0x10000
    ∷ Call.visible_count
    ∷ []

run-replay_example : Matches (run (λ n. true) calls ready) (replay (λ n. true) calls (view ready))
run-replay_example = run-replay (λ n. true) calls ready (fresh-IsManager false)

abbrev answers_of : Option (WindowManager × List Answer) → List Answer
answers_of none = []
answers_of (some (wm, answers)) = answers

run_answers :
    answers_of (run (λ n. true) calls ready)
    ≡ Answer.number 0x10000
      ∷ Answer.number 1
      ∷ Answer.pixels (some (replicate 32 0xFFF0F0F0, 4, 8))
      ∷ Answer.done
      ∷ Answer.number 0x10001
      ∷ Answer.done
      ∷ Answer.done
      ∷ Answer.pixels none
      ∷ Answer.number 0
      ∷ []
unfolding run step create_window new_window copy_title wm_get find_first show shown destroy
    destroyed set_text retitled get_client with_client alloc_client fill_client client_height
    visible_count count_visible
run_answers = refl

abbrev numbered_windows : ℕ → ℕ → List Window
numbered_windows b zero = []
numbered_windows b (suc n) =
    record zero_window { handle = b; alive = true } ∷ numbered_windows (b + 1) n

abbrev full : WindowManager
full = record {
  windows = numbered_windows hwnd_base 64;
  count = 64;
  next_handle = 0x10040;
  dirty = true;
}

full-IsManager : IsManager full
full-IsManager = record { slots = refl; fits = omega arith; next = refl; numbered = omega arith }

full_run :
    run (λ n. true) (Call.destroy 0x10005 ∷ []) full ≡ some (destroy full 0x10005, Answer.done ∷ [])
unfolding run step
full_run = refl

run_exhausted_example : create_window (destroy full 0x10005) plain ≡ some (destroy full 0x10005, 0)
run_exhausted_example =
    run_exhausted (λ n. true) (Call.destroy 0x10005 ∷ []) full (destroy full 0x10005)
      (Answer.done ∷ []) plain full-IsManager refl tt full_run
