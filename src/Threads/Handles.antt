-- ===== src/Threads/Handles.antt =====
-- Handles of the scheduler of Sources/Win32/wg_threading.c: those of new threads, and those that
-- threads wait for.
use mathlib.Core.Option.{some-injective}
use wine_glass.Base.{
  ℕ, zero, suc, [], ◌∷◌, ◌+◌, ◌^◌, ◌<◌, ◌≡◌, ◌≢◌, refl, sym, ap, ◌∙◌, ◌⊎◌, inl, inr, Bool, true,
  false, ◌&&◌, not, ◌==◌, if◌then◌else◌, Bool-cases, Option, none, some, arith, List, length,
  get_elem?, set,
}
use wine_glass.Base.Words.{test_mask}
use wine_glass.Threads.Types.{Thread, ThreadState, Scheduler, Blink, is_free, is_waiting}
use wine_glass.Threads.{
  free_slot, later_index, create_thread, new_thread, woken, wake, find, sched_find,
}
use wine_glass.Threads.Valid.{set-cases, map-at}

in_rest :
    (t : Thread) (ts : List Thread) (r : Option ℕ) (i : ℕ)
    → ((j : ℕ) → free_slot ts ≡ some j → j < length ts)
    → free_slot ts ≡ r
    → later_index r ≡ some i
    → i < length (t ∷ ts)
in_rest t ts none i below e k = absurd (ground arith)
in_rest t ts (some j) i below e k = omega (arith, below j e, some-injective _ _ k)

free_slot-lt : (ts : List Thread) (i : ℕ) → free_slot ts ≡ some i → i < length ts
unfolding free_slot
free_slot-lt [] i h = absurd (ground arith)
free_slot-lt (t ∷ ts) i h = elim (Bool-cases (is_free t.state)) [
  | inl e ↦ omega (arith, some-injective _ _ (rw (e, free_slot) at h))
  | inr e ↦ in_rest t ts (free_slot ts) i (λ j. free_slot-lt ts j) refl (rw (e, free_slot) at h)
]

-- No thread in use has the handle.
abbrev Unused : List Thread → ℕ → Type 0
Unused ts handle =
    (i : ℕ) (t : Thread) → get_elem? ts i ≡ some t → is_free t.state ≡ false → t.handle ≢ handle

skipped :
    (t : Thread) (handle : ℕ)
    → (is_free t.state ≡ false → t.handle ≢ handle)
    → ((t.handle == handle) && not (is_free t.state)) ≡ false
skipped t handle h = ground arith

find-set :
    (ts : List Thread) (i : ℕ) (t : Thread)
    → i < length ts
    → is_free t.state ≡ false
    → Unused ts t.handle
    → find (set ts i t) t.handle ≡ some t
unfolding find
find-set [] i t h used unused = absurd (omega arith)
find-set (x ∷ ts) zero t h used unused =
    let same : (t.handle == t.handle) ≡ true = ground arith in rw (same, used)
find-set (x ∷ ts) (suc i) t h used unused =
    rw (skipped x t.handle (unused 0 x refl), find)
      (find-set ts i t (omega arith) used λ j u here. unused (suc j) u here)

-- Every handle in use has been given out before.
abbrev pub HandlesBelow : Scheduler → Type 0
HandlesBelow s =
    (i : ℕ) (t : Thread)
    → get_elem? s.threads i ≡ some t
    → is_free t.state ≡ false
    → t.handle < s.next_handle

module _ {B : Type 0} (blink : Blink B) (alloc : ℕ → Bool) (s : Scheduler) (b : B)
    (start_addr param thread_flags slot : ℕ) (below : HandlesBelow s)
    (room : free_slot s.threads ≡ some slot) where
  abbrev fresh : Thread
  fresh = new_thread s start_addr param thread_flags

  in_use : is_free fresh.state ≡ false
  in_use = by_flag (test_mask thread_flags 0x4)
    where
      by_flag :
          (c : Bool) → is_free (if c then ThreadState.suspended else ThreadState.ready) ≡ false
      by_flag true = refl
      by_flag false = refl

  -- Where a slot is free and every handle in use was given out before, the handle that
  -- `wg_sched_create_thread` returns finds the new thread, with its entry point and parameter.
  pub create_thread-sched_find :
      sched_find
        (create_thread blink alloc s b start_addr param thread_flags).0
        (create_thread blink alloc s b start_addr param thread_flags).2
      ≡ some (new_thread s start_addr param thread_flags)
  unfolding sched_find create_thread find
  create_thread-sched_find =
      rw (room, create_thread)
        (find-set s.threads slot fresh (free_slot-lt s.threads slot room) in_use
          λ i t here used same. omega (arith, below i t here used, same))

  -- The handles stay below the next one, as long as that does not wrap.
  pub create_thread-HandlesBelow :
      s.next_handle + 1 < 2 ^ 32
      → HandlesBelow (create_thread blink alloc s b start_addr param thread_flags).0
  unfolding create_thread
  create_thread-HandlesBelow h =
      rw (room, create_thread)
        λ i t here used. elim (set-cases s.threads slot i fresh t here) [
          | inl (e, same) ↦ omega (arith, ap (λ (w : Thread). w.handle) same, h)
          | inr (apart, there) ↦ omega (arith, below i t there used, h)
        ]

woken_waits :
    (handle : ℕ) (t : Thread)
    → is_waiting (woken handle t).state ≡ true
    → (woken handle t).wait_handle ≢ handle
woken_waits handle t h same = by_test (is_waiting t.state && (t.wait_handle == handle)) refl h same
  where
    by_test :
        (c : Bool)
        → (is_waiting t.state && (t.wait_handle == handle)) ≡ c
        → is_waiting
            (if c then record t { state = ThreadState.ready; wait_handle = 0 } else t).state
          ≡ true
        → (if c then record t { state = ThreadState.ready; wait_handle = 0 } else t).wait_handle
          ≡ handle
        → ⊥
    by_test true e k m = cc
    by_test false e k m = ground arith

-- After `wg_sched_wake` no thread waits for the handle; each slot holds its thread as it was, or,
-- where it waited for the handle, READY and waiting for nothing.
pub wake-none_waits :
    (s : Scheduler) (handle i : ℕ) (u : Thread)
    → get_elem? (wake s handle).threads i ≡ some u
    → (is_waiting u.state ≡ true → u.wait_handle ≢ handle)
      × ((get_elem? s.threads i ≡ some u)
          ⊎ ((t : Thread) × (get_elem? s.threads i ≡ some t)
              × (is_waiting t.state ≡ true)
              × (t.wait_handle ≡ handle)
              × (u ≡ record t { state = ThreadState.ready; wait_handle = 0 })))
unfolding wake
wake-none_waits s handle i u here =
    let (t, at, same) = map-at (woken handle) s.threads i u here in
    (
      λ w e.
          woken_waits handle t (ap (λ (x : Thread). is_waiting x.state) (sym same) ∙ w)
            (ap (λ (x : Thread). x.wait_handle) (sym same) ∙ e),
      by_test t at same (Bool-cases (is_waiting t.state && (t.wait_handle == handle))),
    )
  where
    by_test :
        (t : Thread)
        → get_elem? s.threads i ≡ some t
        → u ≡ woken handle t
        → ((is_waiting t.state && (t.wait_handle == handle)) ≡ true)
          ⊎ ((is_waiting t.state && (t.wait_handle == handle)) ≡ false)
        → (get_elem? s.threads i ≡ some u)
          ⊎ ((t : Thread) × (get_elem? s.threads i ≡ some t)
              × (is_waiting t.state ≡ true)
              × (t.wait_handle ≡ handle)
              × (u ≡ record t { state = ThreadState.ready; wait_handle = 0 }))
    by_test t at same (inl e) = inr (t, at, ground arith, ground arith, same ∙ rw e)
    by_test t at same (inr e) = inl (at ∙ ap some (sym (same ∙ rw e)))
