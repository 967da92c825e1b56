-- ===== src/Threads/Reachable.antt =====
-- The states of the scheduler of Sources/Win32/wg_threading.c that its operations lead to.
use mathlib.Core.Path.{subst}
use wine_glass.Base.{ℕ, Bool, ◌≡◌, ◌≢◌, sym}
use wine_glass.Threads.Types.{Scheduler, ThreadState, Blink, sched_create}
use wine_glass.Threads.{create_thread, yield, exit_thread, wake}
use wine_glass.Threads.Valid.{
  IsScheduler, sched_create-IsScheduler, create_thread-IsScheduler, yield-IsScheduler,
  exit_thread-IsScheduler, wake-IsScheduler,
}

-- What any sequence of operations makes of the new scheduler. The processor may be in any state `b`
-- when an operation is called, and each allocation may succeed or fail.
pub data Reachable {B : Type 0} (blink : Blink B) : Scheduler → Type 0 where
  start : {s : Scheduler} → s ≡ sched_create → Reachable blink s
  created :
      {s s' : Scheduler} (alloc : ℕ → Bool) (b : B) (start_addr param thread_flags : ℕ)
      → Reachable blink s
      → s' ≡ (create_thread blink alloc s b start_addr param thread_flags).0
      → Reachable blink s'
  yielded :
      {s s' : Scheduler} (b : B) (reason : ThreadState)
      → reason ≢ ThreadState.running
      → Reachable blink s
      → s' ≡ (yield blink s b reason).0
      → Reachable blink s'
  exited :
      {s s' : Scheduler} (b : B) (exit_code : ℕ)
      → Reachable blink s
      → s' ≡ (exit_thread blink s b exit_code).0
      → Reachable blink s'
  woke :
      {s s' : Scheduler} (handle : ℕ) → Reachable blink s → s' ≡ wake s handle → Reachable blink s'

-- However threads are created, yield for a reason other than RUNNING, exit and are woken from the new
-- scheduler on: the table keeps its 32 slots, at most one thread is RUNNING, and it is the current
-- one.
pub reachable-IsScheduler :
    {B : Type 0} (blink : Blink B) (s : Scheduler) → Reachable blink s → IsScheduler s
reachable-IsScheduler blink s (Reachable.start e) =
    subst IsScheduler (sym e) sched_create-IsScheduler
reachable-IsScheduler blink s
      (Reachable.created {s = t} alloc b start_addr param thread_flags r e) =
    subst IsScheduler (sym e) (
      create_thread-IsScheduler blink alloc t b start_addr param thread_flags
        (reachable-IsScheduler blink t r))
reachable-IsScheduler blink s (Reachable.yielded {s = t} b reason ne r e) =
    subst IsScheduler (sym e)
      (yield-IsScheduler blink t b reason (reachable-IsScheduler blink t r) ne)
reachable-IsScheduler blink s (Reachable.exited {s = t} b exit_code r e) =
    subst IsScheduler (sym e)
      (exit_thread-IsScheduler blink t b exit_code (reachable-IsScheduler blink t r))
reachable-IsScheduler blink s (Reachable.woke {s = t} handle r e) =
    subst IsScheduler (sym e) (wake-IsScheduler t handle (reachable-IsScheduler blink t r))
