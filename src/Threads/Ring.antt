-- ===== src/Threads/Ring.antt =====
-- The order in which the scheduler of Sources/Win32/wg_threading.c takes its threads: around the
-- table, from the slot behind the current one.
use mathlib.Core.Path.{subst}
use mathlib.Core.Option.{some-injective}
use wine_glass.Base.{
  ℕ, zero, suc, ◌+◌, ◌-◌, ◌%◌, ◌<◌, ◌≡◌, refl, sym, ap, ◌∙◌, ◌⊎◌, inl, inr, true, false, Bool-cases,
  Option, none, some, arith, List, length, get_elem?, get_elem?_total, get_elem?-lt,
}
use wine_glass.Threads.Types.{Thread, ThreadState, Scheduler, Blink, is_ready}
use wine_glass.Threads.{with_current, restore_regs, scan_start, next_ready, switch_next}

-- No slot is ready among the first `n` from `start` on.
abbrev pub NoneReady : List Thread → ℕ → ℕ → Type 0
NoneReady ts start n =
    (j : ℕ) (u : Thread)
    → j < n
    → get_elem? ts ((start + j) % 32) ≡ some u
    → is_ready u.state ≡ false

-- A ready slot, the first from `start` on.
pub record FirstReady (ts : List Thread) (start n i : ℕ) (t : Thread) : Type 0 where
  pub steps : ℕ
  pub near : steps < n
  pub place : i ≡ (start + steps) % 32
  pub at : get_elem? ts i ≡ some t
  pub is_ready_there : is_ready t.state ≡ true
  pub none_before : NoneReady ts start steps

module _ (ts : List Thread) (full : length ts ≡ 32) where
  abbrev Scanned : ℕ → ℕ → Option (ℕ × Thread) → Type 0
  Scanned n start none = NoneReady ts start n
  Scanned n start (some (i, t)) = FirstReady ts start n i t

  -- One slot that is not ready, before the others.
  extend :
      (start n : ℕ) (t : Thread)
      → get_elem? ts (start % 32) ≡ some t
      → is_ready t.state ≡ false
      → NoneReady ts (start + 1) n
      → NoneReady ts start (suc n)
  extend start n t at busy rest zero u below here =
      subst (λ (v : Thread). is_ready v.state ≡ false) (some-injective _ _ (sym at ∙ shift ∙ here))
        busy
    where
      shift : get_elem? ts (start % 32) ≡ get_elem? ts ((start + 0) % 32)
      shift = ap (get_elem? ts) (omega arith)
  extend start n t at busy rest (suc j) u below here = rest j u (omega arith) (shift ∙ here)
    where
      shift : get_elem? ts ((start + 1 + j) % 32) ≡ get_elem? ts ((start + suc j) % 32)
      shift = ap (get_elem? ts) (omega arith)

  one_further :
      (n start : ℕ) (t : Thread) (r : Option (ℕ × Thread))
      → get_elem? ts (start % 32) ≡ some t
      → is_ready t.state ≡ false
      → Scanned n (start + 1) r
      → Scanned (suc n) start r
  one_further n start t none at busy rest = extend start n t at busy rest
  one_further n start t (some (i, u)) at busy f = record {
    steps = f.steps + 1;
    near = omega (arith, f.near);
    place = omega (arith, f.place);
    at = f.at;
    is_ready_there = f.is_ready_there;
    none_before =
        subst (NoneReady ts start) {y = f.steps + 1} (omega arith)
          (extend start f.steps t at busy f.none_before);
  }

  scanned : (n start : ℕ) → Scanned n start (next_ready n ts start)
  unfolding next_ready
  scanned zero start = λ j u below here. absurd (omega arith)
  scanned (suc n) start =
      let (t, at) = get_elem?_total ts (start % 32) (omega (arith, full)) in
      elim (Bool-cases (is_ready t.state)) [
        | inl ready ↦
            rw (at, ready, next_ready)
              (record {
                steps = 0;
                near = omega arith;
                place = omega arith;
                at = at;
                is_ready_there = ready;
                none_before = λ j u below here. absurd (omega arith);
              })
        | inr busy ↦
            rw (at, busy, next_ready)
              (one_further n start t (next_ready n ts (start + 1)) at busy (scanned n (start + 1)))
      ]

module _ {B : Type 0} (blink : Blink B) (s : Scheduler) (b : B) (full : length s.threads ≡ 32) where
  -- A switch by the scan that it makes.
  pub switch_next_scan :
      (((i : ℕ) (t : Thread) → get_elem? s.threads i ≡ some t → is_ready t.state ≡ false)
        × (switch_next blink s b ≡ (s, b, false)))
      ⊎ ((i : ℕ) × (t : Thread) × FirstReady s.threads (scan_start s.current) 32 i t
          × (switch_next blink s b ≡ (
            with_current s i (record t { state = ThreadState.running }),
            restore_regs blink t.regs b,
            true,
          )))
  unfolding switch_next
  switch_next_scan =
      let start = scan_start s.current in
      by_scan (next_ready 32 s.threads start) refl (scanned s.threads full 32 start)
    where
      everywhere :
          NoneReady s.threads (scan_start s.current) 32
          → (i : ℕ) (t : Thread) → get_elem? s.threads i ≡ some t
          → is_ready t.state ≡ false
      everywhere none_ready i t here =
          none_ready ((i + 32 - scan_start s.current % 32) % 32) t (omega arith) (shift ∙ here)
        where
          inside : i < 32
          inside = omega (arith, full, get_elem?-lt s.threads i here)

          shift :
              get_elem? s.threads
                ((scan_start s.current + (i + 32 - scan_start s.current % 32) % 32) % 32)
              ≡ get_elem? s.threads i
          shift = ap (get_elem? s.threads) {y = i} (omega (arith, inside))

      by_scan :
          (r : Option (ℕ × Thread))
          → next_ready 32 s.threads (scan_start s.current) ≡ r
          → Scanned s.threads full 32 (scan_start s.current) r
          → (((i : ℕ) (t : Thread) → get_elem? s.threads i ≡ some t → is_ready t.state ≡ false)
              × (switch_next blink s b ≡ (s, b, false)))
            ⊎ ((i : ℕ) × (t : Thread) × FirstReady s.threads (scan_start s.current) 32 i t
                × (switch_next blink s b ≡ (
                  with_current s i (record t { state = ThreadState.running }),
                  restore_regs blink t.regs b,
                  true,
                )))
      by_scan none e nothing = inl (everywhere nothing, rw (e, switch_next))
      by_scan (some (i, t)) e f = inr (i, t, f, rw (e, switch_next))
