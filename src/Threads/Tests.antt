-- ===== src/Threads/Tests.antt =====
-- The scheduler with two threads, on a processor that keeps only its instruction pointer.
use wine_glass.Base.{
  ℕ, ◌≡◌, ◌≢◌, refl, ◌⊎◌, true, some, replicate, All-get, All-replicate, [], ◌∷◌, get_elem?, ◌==◌,
  if◌then◌else◌,
}
use wine_glass.Threads.Types.{
  Thread, ThreadState, Scheduler, Blink, sched_create, is_waiting, is_free, zero_thread,
}
use wine_glass.Threads.{create_thread, free_slot, new_thread, sched_find, yield, exit_thread, wake}
use wine_glass.Threads.Valid.{
  IsScheduler, sched_create-IsScheduler, create_thread-IsScheduler, yield-IsScheduler,
}
use wine_glass.Threads.Reachable.{Reachable, reachable-IsScheduler}
use wine_glass.Threads.Handles.{HandlesBelow, create_thread-sched_find, wake-none_waits}

abbrev pointer : Blink ℕ
pointer = record {
  get_reg = λ b i. i;
  set_reg = λ b i v. b;
  get_rip = λ b. b;
  set_rip = λ b v. v;
  set_fs_base = λ b v. b;
  load_code = λ b addr code. b;
  write_mem = λ b addr bytes. b;
}

abbrev one : Scheduler
one = (create_thread pointer (λ n. true) sched_create 0 0x401000 7 0).0

one-IsScheduler : IsScheduler one
one-IsScheduler =
    create_thread-IsScheduler pointer (λ n. true) sched_create 0 0x401000 7 0
      sched_create-IsScheduler

abbrev two : Scheduler
two = (create_thread pointer (λ n. true) one 0 0x402000 8 0).0

two-IsScheduler : IsScheduler two
two-IsScheduler = create_thread-IsScheduler pointer (λ n. true) one 0 0x402000 8 0 one-IsScheduler

waiting_differs : ThreadState.waiting ≢ ThreadState.running
waiting_differs e = cc

abbrev first_runs : Scheduler
first_runs = (yield pointer two 0 ThreadState.waiting).0

first_runs-IsScheduler : IsScheduler first_runs
first_runs-IsScheduler =
    yield-IsScheduler pointer two 0 ThreadState.waiting two-IsScheduler waiting_differs

-- A processor with its registers, its instruction pointer and its FS base.
record Processor : Type 0 where
  regs : ℕ → ℕ
  rip : ℕ
  fs_base : ℕ

abbrev processor : Blink Processor
processor = record {
  get_reg = λ b i. b.regs i;
  set_reg = λ b i v. record b { regs = λ j. if i == j then v else b.regs j };
  get_rip = λ b. b.rip;
  set_rip = λ b v. record b { rip = v };
  set_fs_base = λ b v. record b { fs_base = v };
  load_code = λ b addr code. b;
  write_mem = λ b addr bytes. b;
}

abbrev fs_of : Processor → ℕ
fs_of b = b.fs_base

abbrev reset : Processor
reset = record { regs = λ i. 0; rip = 0; fs_base = 0 }

below_one : HandlesBelow sched_create
below_one i t here used =
    let still : is_free t.state ≡ true =
      All-get (λ (u : Thread). is_free u.state ≡ true) (replicate 32 zero_thread) i
        (All-replicate (λ (u : Thread). is_free u.state ≡ true) 32 zero_thread refl) here in
    absurd cc

first_room : free_slot sched_create.threads ≡ some 0
unfolding free_slot
first_room = refl

create_thread-sched_find_example :
    sched_find one (create_thread pointer (λ n. true) sched_create 0 0x401000 7 0).2
    ≡ some (new_thread sched_create 0x401000 7 0)
create_thread-sched_find_example =
    create_thread-sched_find pointer (λ n. true) sched_create 0 0x401000 7 0 0 below_one first_room

-- A table with one thread that waits for the handle 5.
abbrev sleeper : Thread
sleeper = record zero_thread { state = ThreadState.waiting; wait_handle = 5 }

abbrev woken_sleeper : Thread
woken_sleeper = record sleeper { state = ThreadState.ready; wait_handle = 0 }

abbrev asleep : Scheduler
asleep = record sched_create { threads = sleeper ∷ [] }

awake : get_elem? (wake asleep 5).threads 0 ≡ some woken_sleeper
unfolding wake
awake = refl

wake-none_waits_example :
    (is_waiting woken_sleeper.state ≡ true → woken_sleeper.wait_handle ≢ 5)
    × ((get_elem? asleep.threads 0 ≡ some woken_sleeper)
        ⊎ ((t : Thread) × (get_elem? asleep.threads 0 ≡ some t)
            × (is_waiting t.state ≡ true)
            × (t.wait_handle ≡ 5)
            × (woken_sleeper ≡ record t { state = ThreadState.ready; wait_handle = 0 })))
wake-none_waits_example = wake-none_waits asleep 5 0 woken_sleeper awake

reachable-IsScheduler_example : IsScheduler (exit_thread pointer first_runs 0 3).0
reachable-IsScheduler_example =
    reachable-IsScheduler pointer (exit_thread pointer first_runs 0 3).0 (
      Reachable.exited 0 3
        (Reachable.yielded 0 ThreadState.waiting waiting_differs
          (Reachable.created (λ n. true) 0 0x402000 8 0
            (Reachable.created (λ n. true) 0 0x401000 7 0 (Reachable.start refl) refl) refl)
          refl)
        refl)
