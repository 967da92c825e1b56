-- ===== src/Threads.antt =====
-- Sources/Win32/wg_threading.h and wg_threading.c: the cooperative scheduler of the guest's
-- threads, a table of 32 slots. An index of -1 for "no current thread" is `none`. The guest's
-- processor is reached through the functions of Sources/Core/wg_blink_bridge.h, the record `Blink`.
-- At an index past the table, where C leaves the access undefined, a lookup gives `none` and a write
-- changes nothing.
pub mod Types
pub mod Ring
pub mod Switch
pub mod Valid
pub mod Handles
pub mod Reachable
mod Tests
use wine_glass.Base.{
  ℕ, zero, suc, ◌+◌, ◌-◌, ◌*◌, ◌%◌, ◌/◌, ◌^◌, Bool, true, false, ◌&&◌, not, ◌==◌, if◌then◌else◌,
  Option, none, some, List, [], ◌∷◌, map, get_elem?, set, replicate, bit_and,
}
use wine_glass.Base.Words.{u32, test_mask}
use Types.{
  ThreadState, ThreadRegs, Thread, Scheduler, max_threads, thread_stack, Blink, zero_thread,
  sched_create, is_free, is_ready, is_waiting,
}

abbrev pub later_index : Option ℕ → Option ℕ
later_index none = none
later_index (some i) = some (suc i)

-- The first free slot.
pub free_slot : List Thread → Option ℕ
free_slot [] = none
free_slot (t ∷ ts) = if is_free t.state then some 0 else later_index (free_slot ts)

abbrev pub thread_at : List Thread → Option ℕ → Option Thread
thread_at ts none = none
thread_at ts (some i) = get_elem? ts i

-- `sched->current >= 0 ? sched->threads[sched->current].regs.fs_base : 0`
abbrev pub current_fs_base : Option Thread → ℕ
current_fs_base none = 0
current_fs_base (some t) = t.regs.fs_base

abbrev pub word_bytes : ℕ → ℕ → List ℕ
word_bytes zero v = []
word_bytes (suc n) v = v % 256 ∷ word_bytes n (v / 256)

-- The stack pointer of a new thread.
abbrev pub initial_sp : ℕ → ℕ
initial_sp stack_base = u32 (stack_base + thread_stack - 0x100)

abbrev pub new_thread : Scheduler → ℕ → ℕ → ℕ → Thread
new_thread s start_addr param flags =
    let sp = initial_sp s.next_stack_addr in
    let fs = current_fs_base (thread_at s.threads s.current) in
    record zero_thread {
      state = if test_mask flags 0x4 then ThreadState.suspended else ThreadState.ready;
      id = s.next_id;
      handle = s.next_handle;
      stack_base = s.next_stack_addr;
      stack_size = thread_stack;
      teb = fs;
      start_addr = start_addr;
      param = param;
      exit_code = 259;
      regs = record { gpr = 0 ∷ 0 ∷ 0 ∷ 0 ∷ sp ∷ sp ∷ 0 ∷ 0 ∷ []; rip = start_addr; fs_base = fs };
    }

abbrev pub with_thread : Scheduler → ℕ → Thread → Scheduler
with_thread s slot t = record s {
  threads = set s.threads slot t;
  count = s.count + 1;
  next_id = u32 (s.next_id + 1);
  next_handle = u32 (s.next_handle + 1);
  next_stack_addr = u32 (s.next_stack_addr + (thread_stack + 0x1000));
}

abbrev pub with_current : Scheduler → ℕ → Thread → Scheduler
with_current s i t = record s { threads = set s.threads i t; current = some i }

abbrev pub scan_start : Option ℕ → ℕ
scan_start none = 0
scan_start (some i) = i + 1

-- The first ready slot of `n`, from `start` on and around.
pub next_ready : ℕ → List Thread → ℕ → Option (ℕ × Thread)
next_ready zero ts start = none
next_ready (suc n) ts start =
    let rest = next_ready n ts (start + 1) in
    elim (get_elem? ts (start % max_threads)) [
      | none ↦ none
      | some t ↦ if is_ready t.state then some (start % max_threads, t) else rest
    ]

module _ {B : Type 0} (blink : Blink B) where
  -- The stack is mapped where `calloc` has room for a copy; the return address 0 and the parameter
  -- are written in any case.
  abbrev pub map_stack : (ℕ → Bool) → B → ℕ → ℕ → B
  map_stack alloc b stack_base param =
      let sp = initial_sp stack_base in
      let mapped =
        if alloc thread_stack then blink.load_code b stack_base (replicate thread_stack 0) else b in
      blink.write_mem (blink.write_mem mapped sp (word_bytes 4 0)) (u32 (sp + 4))
        (word_bytes 4 param)

  -- The scheduler, the processor, the handle (0 on failure) and the thread's id, as it is stored
  -- through `out_tid`.
  pub create_thread : (ℕ → Bool) → Scheduler → B → ℕ → ℕ → ℕ → Scheduler × B × ℕ × Option ℕ
  create_thread alloc s b start_addr param flags = elim (free_slot s.threads) [
    | none ↦ (s, b, 0, none)
    | some slot ↦ (
      with_thread s slot (new_thread s start_addr param flags),
      map_stack alloc b s.next_stack_addr param,
      s.next_handle,
      some s.next_id,
    )
  ]

  abbrev pub save_regs : ThreadRegs → B → ThreadRegs
  save_regs regs b = record regs {
    gpr = map (λ i. u32 (blink.get_reg b i)) (0 ∷ 1 ∷ 2 ∷ 3 ∷ 4 ∷ 5 ∷ 6 ∷ 7 ∷ []);
    rip = u32 (blink.get_rip b);
  }

  abbrev pub restore_gprs : List ℕ → ℕ → B → B
  restore_gprs [] i b = b
  restore_gprs (v ∷ vs) i b = restore_gprs vs (i + 1) (blink.set_reg b i v)

  abbrev pub restore_regs : ThreadRegs → B → B
  restore_regs regs b =
      blink.set_fs_base (blink.set_rip (restore_gprs regs.gpr 0 b) regs.rip) regs.fs_base

  abbrev pub saved : Scheduler → B → ThreadState → Option ℕ → Scheduler
  saved s b new_state none = s
  saved s b new_state (some i) = elim (get_elem? s.threads i) [
    | none ↦ s
    | some t ↦ record s {
      threads = set s.threads i (record t { regs = save_regs t.regs b; state = new_state });
    }
  ]

  pub save_current : Scheduler → B → ThreadState → Scheduler
  save_current s b new_state = saved s b new_state s.current

  pub switch_next : Scheduler → B → Scheduler × B × Bool
  switch_next s b = elim (next_ready max_threads s.threads (scan_start s.current)) [
    | none ↦ (s, b, false)
    | some (i, t) ↦
        (with_current s i (record t { state = ThreadState.running }), restore_regs t.regs b, true)
  ]

  -- The current thread runs again where no other could be found.
  abbrev pub resume : Scheduler → B → Option ℕ → Scheduler × B × Bool
  resume s b none = (s, b, false)
  resume s b (some i) = elim (get_elem? s.threads i) [
    | none ↦ (s, b, false)
    | some t ↦
        (with_current s i (record t { state = ThreadState.running }), restore_regs t.regs b, false)
  ]

  pub yield : Scheduler → B → ThreadState → Scheduler × B × Bool
  yield s b block_reason =
      let s1 = save_current s b block_reason in
      let (s2, b2, switched) = switch_next s1 b in
      if switched then (s2, b2, true) else resume s2 b2 s2.current

  abbrev pub exited_at : Scheduler → B → ℕ → Option ℕ → Scheduler × B
  exited_at s b exit_code none = (s, b)
  exited_at s b exit_code (some i) = elim (get_elem? s.threads i) [
    | none ↦ (s, b)
    | some t ↦
        let gone = record t { state = ThreadState.exited; exit_code = exit_code } in
        let (s1, b1, switched) =
          switch_next (record s { threads = set s.threads i gone; current = none }) b in
        (s1, b1)
  ]

  pub exit_thread : Scheduler → B → ℕ → Scheduler × B
  exit_thread s b exit_code = exited_at s b exit_code s.current

abbrev pub woken : ℕ → Thread → Thread
woken handle t =
    if is_waiting t.state && (t.wait_handle == handle)
    then record t { state = ThreadState.ready; wait_handle = 0 }
    else t

pub wake : Scheduler → ℕ → Scheduler
wake s handle = record s { threads = map (woken handle) s.threads }

-- The first thread with the handle whose slot is in use.
pub find : List Thread → ℕ → Option Thread
find [] handle = none
find (t ∷ ts) handle =
    if (t.handle == handle) && not (is_free t.state) then some t else find ts handle

pub sched_find : Scheduler → ℕ → Option Thread
sched_find s handle = find s.threads handle

abbrev pub sched_current : Scheduler → Option Thread
sched_current s = thread_at s.threads s.current

abbrev pub id_of : Option Thread → ℕ
id_of none = 0
id_of (some t) = t.id

abbrev pub sched_current_tid : Scheduler → ℕ
sched_current_tid s = id_of (sched_current s)
