-- ===== src/Threads/Valid.antt =====
-- The invariant of the scheduler of Sources/Win32/wg_threading.c, that only the current thread runs,
-- and its operations.
use mathlib.Core.Path.{subst}
use mathlib.Core.Option.{some-injective}
use wine_glass.Base.{
  ℕ, zero, suc, [], ◌∷◌, ◌<◌, ◌≡◌, ◌≢◌, refl, sym, ap, ◌∙◌, ◌⊎◌, inl, inr, Bool, true, false, ◌&&◌,
  ◌==◌, if◌then◌else◌, Option-cases, Option, none, some, arith, List, length, length-set,
  length-replicate, All-get, All-replicate, replicate, get_elem?, get_elem?-lt, get_elem?_total,
  set, map,
}
use wine_glass.Base.Words.{test_mask}
use wine_glass.Threads.Types.{
  sched_create, zero_thread, Thread, ThreadState, Scheduler, Blink, is_waiting,
}
use wine_glass.Threads.{
  with_current, switch_next, saved, save_current, resume, yield, exited_at, exit_thread, woken,
  wake, free_slot, create_thread, with_thread, new_thread,
}
use wine_glass.Threads.Ring.{switch_next_scan}

abbrev IsCurrent : Option ℕ → Type 0
IsCurrent none = Unit
IsCurrent (some i) = i < 32

pub record IsScheduler (s : Scheduler) : Type 0 where
  pub full : length s.threads ≡ 32
  pub current_fits : IsCurrent s.current
  pub only_current :
      (i : ℕ) (t : Thread)
      → get_elem? s.threads i ≡ some t
      → t.state ≡ ThreadState.running
      → s.current ≡ some i

abbrev NoRunning : List Thread → Type 0
NoRunning ts = (i : ℕ) (t : Thread) → get_elem? ts i ≡ some t → t.state ≢ ThreadState.running

-- What stands in a slot after a write to a slot.
pub set-cases :
    {A : Type 0} (xs : List A) (i j : ℕ) (v u : A)
    → get_elem? (set xs i v) j ≡ some u
    → ((i ≡ j) × (u ≡ v)) ⊎ ((i ≢ j) × (get_elem? xs j ≡ some u))
set-cases [] i j v u h = absurd (ground arith)
set-cases (x ∷ xs) zero zero v u h = inl (refl, some-injective _ _ (sym h))
set-cases (x ∷ xs) zero (suc j) v u h = inr (omega arith, h)
set-cases (x ∷ xs) (suc i) zero v u h = inr (omega arith, h)
set-cases (x ∷ xs) (suc i) (suc j) v u h = elim (set-cases xs i j v u h) [
  | inl (e, same) ↦ inl (ap suc e, same)
  | inr (apart, there) ↦ inr (omega arith, there)
]

module _ (s : Scheduler) (full : length s.threads ≡ 32) (idle : NoRunning s.threads) where
  with_current-IsScheduler : (i : ℕ) (t : Thread) → i < 32 → IsScheduler (with_current s i t)
  with_current-IsScheduler i t h = record {
    full = length-set s.threads i t ∙ full;
    current_fits = h;
    only_current = λ j u here running. elim (set-cases s.threads i j t u here) [
      | inl (e, same) ↦ ap some e
      | inr (apart, there) ↦ absurd (idle j u there running)
    ];
  }

pub sched_create-IsScheduler : IsScheduler sched_create
sched_create-IsScheduler = record {
  full = length-replicate 32 zero_thread;
  current_fits = tt;
  only_current = λ i t here running.
      let still : t.state ≡ ThreadState.free =
        All-get (λ (u : Thread). u.state ≡ ThreadState.free) (replicate 32 zero_thread) i
          (All-replicate (λ (u : Thread). u.state ≡ ThreadState.free) 32 zero_thread refl) here in
      absurd cc;
}

not_running : (x y : ThreadState) → x ≡ y → y ≢ ThreadState.running → x ≢ ThreadState.running
not_running x y e h k = h (sym e ∙ k)

-- A slot of a valid scheduler is the current one or not RUNNING, so a write of a thread that is not
-- RUNNING to the current slot leaves none.
NoRunning-set :
    (s : Scheduler) (i : ℕ) (t : Thread)
    → IsScheduler s
    → s.current ≡ some i
    → t.state ≢ ThreadState.running
    → NoRunning (set s.threads i t)
NoRunning-set s i t v at stopped j u here running = elim (set-cases s.threads i j t u here) [
  | inl (e, same) ↦ stopped (sym (ap (λ (w : Thread). w.state) same) ∙ running)
  | inr (apart, there) ↦ apart (some-injective _ _ (sym at ∙ v.only_current j u there running))
]

module _ {B : Type 0} (blink : Blink B) where
  switched-IsScheduler :
      (s : Scheduler) (b : B)
      → length s.threads ≡ 32
      → NoRunning s.threads
      → IsCurrent s.current
      → IsScheduler (switch_next blink s b).0
  switched-IsScheduler s b full idle c = elim (switch_next_scan blink s b full) [
    | inl (none_ready, e) ↦ rw e (record {
      full = full;
      current_fits = c;
      only_current = λ i t here running. absurd (idle i t here running);
    })
    | inr (i, t, f, e) ↦ rw e (
        with_current-IsScheduler s full idle i _
          (omega (arith, full, get_elem?-lt s.threads i f.at)))
  ]

  record Idle (s t : Scheduler) : Type 0 where
    all_slots : length t.threads ≡ 32
    none_runs : NoRunning t.threads
    same_current : t.current ≡ s.current

  save_current-Idle :
      (s : Scheduler) (b : B) (reason : ThreadState)
      → IsScheduler s
      → reason ≢ ThreadState.running
      → Idle s (save_current blink s b reason)
  unfolding save_current
  save_current-Idle s b reason v stopped = by_current s.current refl
    where
      by_current : (c : Option ℕ) → s.current ≡ c → Idle s (saved blink s b reason c)
      by_current none e = record {
        all_slots = v.full;
        none_runs = λ i t here running. cc (e, v.only_current i t here running);
        same_current = refl;
      }
      by_current (some i) e =
          let (t, at) =
            get_elem?_total s.threads i (omega (arith, v.full, subst IsCurrent e v.current_fits)) in
          rw (at, saved)
            (record {
              all_slots = length-set s.threads i _ ∙ v.full;
              none_runs = NoRunning-set s i _ v e stopped;
              same_current = refl;
            })

  resumed-IsScheduler :
      (s : Scheduler) (b : B)
      → length s.threads ≡ 32
      → NoRunning s.threads
      → IsCurrent s.current
      → IsScheduler (resume blink s b s.current).0
  resumed-IsScheduler s b full idle c = by_current s.current refl
    where
      by_current : (d : Option ℕ) → s.current ≡ d → IsScheduler (resume blink s b d).0
      by_current none e = record {
        full = full;
        current_fits = c;
        only_current = λ i t here running. absurd (idle i t here running);
      }
      by_current (some i) e =
          let h : i < 32 = subst IsCurrent e c in
          let (t, at) = get_elem?_total s.threads i (omega (arith, full, h)) in
          rw (at, resume) (with_current-IsScheduler s full idle i _ h)

  -- In a valid scheduler (32 slots, and only the current one RUNNING) a yield for a reason other
  -- than RUNNING leaves a valid one, whether another thread was found or not.
  pub yield-IsScheduler :
      (s : Scheduler) (b : B) (reason : ThreadState)
      → IsScheduler s
      → reason ≢ ThreadState.running
      → IsScheduler (yield blink s b reason).0
  unfolding yield
  yield-IsScheduler s b reason v stopped =
      let s1 = save_current blink s b reason in
      let k = save_current-Idle s b reason v stopped in
      let c : IsCurrent s1.current = subst IsCurrent (sym k.same_current) v.current_fits in
      elim (switch_next_scan blink s1 b k.all_slots) [
        | inl (none_ready, e) ↦ rw (e, yield) (resumed-IsScheduler s1 b k.all_slots k.none_runs c)
        | inr (i, t, f, e) ↦
            rw (e, yield)
              (with_current-IsScheduler s1 k.all_slots k.none_runs i _
                (omega (arith, k.all_slots, get_elem?-lt s1.threads i f.at)))
      ]

  -- The exit of the current thread leaves a valid scheduler valid: at most one slot is RUNNING, and
  -- it is the current one.
  pub exit_thread-IsScheduler :
      (s : Scheduler) (b : B) (exit_code : ℕ)
      → IsScheduler s
      → IsScheduler (exit_thread blink s b exit_code).0
  unfolding exit_thread
  exit_thread-IsScheduler s b exit_code v = by_current s.current refl
    where
      by_current : (c : Option ℕ) → s.current ≡ c → IsScheduler (exited_at blink s b exit_code c).0
      by_current none e = v
      by_current (some i) e =
          let (t, at) =
            get_elem?_total s.threads i (omega (arith, v.full, subst IsCurrent e v.current_fits)) in
          rw (at, exited_at)
            (switched-IsScheduler _ b (length-set s.threads i _ ∙ v.full)
              (NoRunning-set s i _ v e (λ x. cc)) tt)

  -- The creation of a thread leaves a valid scheduler valid, whether or not a slot is free: the new
  -- thread is not RUNNING.
  pub create_thread-IsScheduler :
      (alloc : ℕ → Bool) (s : Scheduler) (b : B) (start_addr param thread_flags : ℕ)
      → IsScheduler s
      → IsScheduler (create_thread blink alloc s b start_addr param thread_flags).0
  unfolding create_thread
  create_thread-IsScheduler alloc s b start_addr param thread_flags v =
      elim (Option-cases (free_slot s.threads)) [
        | inl e ↦ rw (e, create_thread) v
        | inr (slot, e) ↦ rw (e, create_thread) (added slot)
      ]
    where
      fresh : Thread
      fresh = new_thread s start_addr param thread_flags

      started :
          (c : Bool)
          → (if c then ThreadState.suspended else ThreadState.ready) ≢ ThreadState.running
      started true = λ x. cc
      started false = λ x. cc

      added : (slot : ℕ) → IsScheduler (with_thread s slot fresh)
      added slot = record {
        full = length-set s.threads slot fresh ∙ v.full;
        current_fits = v.current_fits;
        only_current = λ j u here running. elim (set-cases s.threads slot j fresh u here) [
          | inl (e, same) ↦ absurd (
              started (test_mask thread_flags 0x4)
                (sym (ap (λ (w : Thread). w.state) same) ∙ running))
          | inr (apart, there) ↦ v.only_current j u there running
        ];
      }

pub map-at :
    {A C : Type 0} (f : A → C) (xs : List A) (i : ℕ) (u : C)
    → get_elem? (map f xs) i ≡ some u
    → (t : A) × (get_elem? xs i ≡ some t) × (u ≡ f t)
map-at f [] i u h = absurd (ground arith)
map-at f (x ∷ xs) zero u h = (x, refl, some-injective _ _ (sym h))
map-at f (x ∷ xs) (suc i) u h = map-at f xs i u h

length-map : {A C : Type 0} (f : A → C) (xs : List A) → length (map f xs) ≡ length xs
length-map f [] = refl
length-map f (x ∷ xs) = ap suc (length-map f xs)

woken_runs :
    (handle : ℕ) (t : Thread)
    → (woken handle t).state ≡ ThreadState.running
    → t.state ≡ ThreadState.running
woken_runs handle t h = by_test (is_waiting t.state && (t.wait_handle == handle)) h
  where
    by_test :
        (c : Bool)
        → (if c then record t { state = ThreadState.ready; wait_handle = 0 } else t).state
          ≡ ThreadState.running
        → t.state ≡ ThreadState.running
    by_test true e = absurd cc
    by_test false e = e

-- Waking the threads that wait for a handle leaves a valid scheduler valid: it makes none RUNNING.
pub wake-IsScheduler : (s : Scheduler) (handle : ℕ) → IsScheduler s → IsScheduler (wake s handle)
unfolding wake
wake-IsScheduler s handle v = record {
  full = length-map (woken handle) s.threads ∙ v.full;
  current_fits = v.current_fits;
  only_current = λ i u here running.
      let (t, at, same) = map-at (woken handle) s.threads i u here in
      v.only_current i t at
        (woken_runs handle t (sym (ap (λ (w : Thread). w.state) same) ∙ running));
}
