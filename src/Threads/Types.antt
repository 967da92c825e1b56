-- ===== src/Threads/Types.antt =====
-- The data of Sources/Win32/wg_threading.h: threads, the table, and what the scheduler uses of the
-- emulated processor.
use wine_glass.Base.{ℕ, ◌*◌, Bool, true, false, Option, none, List, replicate}

pub data ThreadState : Type 0 where
  free running ready waiting suspended exited : ThreadState

pub record ThreadRegs : Type 0 where
  pub gpr : List ℕ
  pub rip : ℕ
  pub fs_base : ℕ

pub record Thread : Type 0 where
  pub state : ThreadState
  pub id : ℕ
  pub handle : ℕ
  pub stack_base : ℕ
  pub stack_size : ℕ
  pub teb : ℕ
  pub start_addr : ℕ
  pub param : ℕ
  pub exit_code : ℕ
  pub wait_handle : ℕ
  pub wait_timeout : ℕ
  pub regs : ThreadRegs

pub record Scheduler : Type 0 where
  pub threads : List Thread
  pub current : Option ℕ
  pub count : ℕ
  pub next_id : ℕ
  pub next_handle : ℕ
  pub next_stack_addr : ℕ

abbrev pub max_threads : ℕ
max_threads = 32

abbrev pub thread_stack : ℕ
thread_stack = 1024 * 1024

-- What the scheduler uses of the emulated processor `B`. The bytes of `load_code` and `write_mem`
-- stand in a list, low byte first.
pub record Blink (B : Type 0) : Type 0 where
  pub get_reg : B → ℕ → ℕ
  pub set_reg : B → ℕ → ℕ → B
  pub get_rip : B → ℕ
  pub set_rip : B → ℕ → B
  pub set_fs_base : B → ℕ → B
  pub load_code : B → ℕ → List ℕ → B
  pub write_mem : B → ℕ → List ℕ → B

abbrev pub zero_thread : Thread
zero_thread = record {
  state = ThreadState.free;
  id = 0;
  handle = 0;
  stack_base = 0;
  stack_size = 0;
  teb = 0;
  start_addr = 0;
  param = 0;
  exit_code = 0;
  wait_handle = 0;
  wait_timeout = 0;
  regs = record { gpr = replicate 8 0; rip = 0; fs_base = 0 };
}

abbrev pub sched_create : Scheduler
sched_create = record {
  threads = replicate max_threads zero_thread;
  current = none;
  count = 0;
  next_id = 0x1000;
  next_handle = 0x7100;
  next_stack_addr = 0x30000000;
}

abbrev pub is_free : ThreadState → Bool
is_free ThreadState.free = true
is_free _ = false

abbrev pub is_ready : ThreadState → Bool
is_ready ThreadState.ready = true
is_ready _ = false

abbrev pub is_waiting : ThreadState → Bool
is_waiting ThreadState.waiting = true
is_waiting _ = false
