-- ===== src/Windows/Runs.antt =====
-- Sequences of calls of Sources/Win32/wg_win32_windows.h on a table and on a desktop.
use mathlib.Core.Option.{some-injective}
use wine_glass.Base.{
  ℕ, ◌≤◌, ◌≡◌, refl, ap, Bool, true, Option, none, some, List, [], ◌∷◌, arith, leb,
}
use wine_glass.Base.Fault.{◌>>=◌, >>=-eq-some}
use wine_glass.Windows.Types.{WindowManager, CreateParams}
use wine_glass.Windows.{create_window}
use wine_glass.Windows.Valid.{IsManager}
use wine_glass.Windows.Refine.{Desktop, view, Call, Answer, step, spec_step}
use wine_glass.Windows.Matches.{Matches, wm_get_ready}
use wine_glass.Windows.Client.{step-Matches}

module _ (malloc : ℕ → Bool) where
  abbrev pub cons_answer {ℓ} : {S : Type ℓ} → Answer → S × List Answer → S × List Answer
  cons_answer a (s, answers) = (s, a ∷ answers)

  unfoldable pub run : List Call → WindowManager → Option (WindowManager × List Answer)
  run [] wm = some (wm, [])
  run (c ∷ calls) wm = step malloc c wm >>= λ r. run calls r.0 >>= λ t. some (cons_answer r.1 t)

  unfoldable pub replay : List Call → Desktop → Option (Desktop × List Answer)
  replay [] d = some (d, [])
  replay (c ∷ calls) d =
      spec_step malloc c d >>= λ r. replay calls r.0 >>= λ t. some (cons_answer r.1 t)

  answered :
      (a : Answer) (x : Option (WindowManager × List Answer)) (y : Option (Desktop × List Answer))
      → Matches x y
      → Matches (x >>= λ t. some (cons_answer a t)) (y >>= λ t. some (cons_answer a t))
  answered a none y m = rw m refl
  answered a (some (wm, answers)) y m = (m.0, rw m.1 refl)

  chained :
      (calls : List Call) (x : Option (WindowManager × Answer)) (y : Option (Desktop × Answer))
      → ((wm : WindowManager) → IsManager wm → Matches (run calls wm) (replay calls (view wm)))
      → Matches x y
      → Matches
          (x >>= λ r. run calls r.0 >>= λ t. some (cons_answer r.1 t))
          (y >>= λ r. replay calls r.0 >>= λ t. some (cons_answer r.1 t))
  chained calls none y rest m = rw m refl
  chained calls (some (wm, a)) y rest m =
      rw m.1 (answered a (run calls wm) (replay calls (view wm)) (rest wm m.0))

  -- From a valid table, any sequence of calls faults exactly when the calls on the map from handles
  -- to live windows do; otherwise it gives the same answers and ends in a valid table with that map.
  pub run-replay :
      (calls : List Call) (wm : WindowManager)
      → IsManager wm
      → Matches (run calls wm) (replay calls (view wm))
  unfolding run replay
  run-replay [] wm v = (v, refl)
  run-replay (c ∷ calls) wm v =
      chained calls (step malloc c wm) (spec_step malloc c (view wm)) (run-replay calls)
        (step-Matches malloc c wm v)

abbrev pub NoReset : List Call → Type 0
NoReset [] = Unit
NoReset (Call.reset ∷ calls) = ⊥
NoReset (c ∷ calls) = NoReset calls

module _ (malloc : ℕ → Bool) where
  grows :
      (c : Call) (d d' : Desktop) (a : Answer)
      → NoReset (c ∷ [])
      → spec_step malloc c d ≡ some (d', a)
      → d.created ≤ d'.created
  unfolding spec_step
  grows (Call.create p) d d' a n e = ground arith
  grows (Call.show hwnd cmd) d d' a n e = ground arith
  grows (Call.destroy hwnd) d d' a n e = ground arith
  grows (Call.set_text hwnd text) d d' a n e = ground arith
  grows (Call.get_client hwnd) d d' a n e = ground arith
  grows Call.visible_count d d' a n e = ground arith
  grows Call.reset d d' a n e = absurd n

split_calls :
    (c : Call) (calls : List Call) → NoReset (c ∷ calls) → NoReset (c ∷ []) × NoReset calls
split_calls (Call.create p) calls n = (tt, n)
split_calls (Call.show hwnd cmd) calls n = (tt, n)
split_calls (Call.destroy hwnd) calls n = (tt, n)
split_calls (Call.set_text hwnd text) calls n = (tt, n)
split_calls (Call.get_client hwnd) calls n = (tt, n)
split_calls Call.visible_count calls n = (tt, n)
split_calls Call.reset calls n = absurd n

module _ (malloc : ℕ → Bool) where
  stepped_grows :
      (c : Call) (wm wm1 : WindowManager) (a : Answer) (x : Option (WindowManager × Answer))
      → NoReset (c ∷ [])
      → Matches x (spec_step malloc c (view wm))
      → x ≡ some (wm1, a)
      → IsManager wm1 × (wm.count ≤ wm1.count)
  stepped_grows c wm wm1 a none n m e = absurd cc
  stepped_grows c wm wm1 a (some (u, b)) n m e =
      let same : u ≡ wm1 = ap (λ (r : WindowManager × Answer). r.0) (some-injective _ _ e) in
      rw (← same) (m.0, grows malloc c (view wm) (view u) b n m.1)

  run_grows :
      (calls : List Call) (wm wm' : WindowManager) (answers : List Answer)
      → IsManager wm
      → NoReset calls
      → run malloc calls wm ≡ some (wm', answers)
      → IsManager wm' × (wm.count ≤ wm'.count)
  unfolding run
  run_grows [] wm wm' answers v n e =
      let same : wm ≡ wm' = ap (λ (r : WindowManager × List Answer). r.0) (some-injective _ _ e) in
      rw (← same) (v, omega arith)
  run_grows (c ∷ calls) wm wm' answers v n e =
      let ((wm1, a), first, rest) = >>=-eq-some (step malloc c wm) _ e in
      let ((wm2, later), second, last) = >>=-eq-some (run malloc calls wm1) _ rest in
      let (v1, more) =
        stepped_grows c wm wm1 a (step malloc c wm) (split_calls c calls n).0
          (step-Matches malloc c wm v) first in
      let same : wm2 ≡ wm' =
        ap (λ (r : WindowManager × List Answer). r.0) (some-injective _ _ last) in
      let (v2, further) = run_grows calls wm1 wm2 later v1 (split_calls c calls n).1 second in
      rw (← same) (v2, omega (arith, more, further))

  -- Once 64 windows were created, every later creation returns 0 and changes nothing, whatever calls
  -- other than a reset came between: destroying windows frees no slot.
  pub run_exhausted :
      (calls : List Call) (wm wm' : WindowManager) (answers : List Answer) (p : CreateParams)
      → IsManager wm
      → wm.count ≡ 64
      → NoReset calls
      → run malloc calls wm ≡ some (wm', answers)
      → create_window wm' p ≡ some (wm', 0)
  unfolding create_window
  run_exhausted calls wm wm' answers p v full n e =
      let (v', more) = run_grows calls wm wm' answers v n e in
      let at_end : leb 64 wm'.count ≡ true = ground (arith, more, full) in
      rw (wm_get_ready wm' v', at_end) refl
