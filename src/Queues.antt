-- ===== src/Queues.antt =====
-- The ring buffers of Sources/Core/wg_engine.c: completions (`s_completions`, s_comp_head,
-- s_comp_tail) and thread messages (`s_thread_msgs`, s_tmsg_head, s_tmsg_tail).
pub mod Holding
pub mod Refine
mod Tests
use wine_glass.Base.{
  ℕ, zero, suc, ◌+◌, ◌-◌, ◌%◌, Bool, true, false, Option, none, some, List, ◌==◌, if◌then◌else◌,
  set, get_elem?,
}
use wine_glass.Base.Fault.{◌>>=◌}

pub record Ring (A : Type 0) : Type 0 where
  pub slots : List A
  pub head : ℕ
  pub tail : ℕ

pub record Completion : Type 0 where
  pub bytes : ℕ
  pub comp_key : ℕ
  pub overlapped : ℕ

pub record ThreadMsg : Type 0 where
  pub tid : ℕ
  pub msg : ℕ
  pub wparam : ℕ
  pub lparam : ℕ

-- WG_MAX_COMPLETIONS and WG_MAX_THREAD_MSGS
abbrev pub ring_size : ℕ
ring_size = 64

abbrev pub next_of : ℕ → ℕ
next_of i = (i + 1) % ring_size

-- Both queues put an item at the tail, or drop it where one slot only is left.
unfoldable pub push : {A : Type 0} → Ring A → A → Ring A
push r a =
    if next_of r.tail == r.head
    then r
    else record r { slots = set r.slots r.tail a; tail = next_of r.tail }

unfoldable pub iocp_post : Ring Completion → ℕ → ℕ → ℕ → Ring Completion
iocp_post r bytes comp_key overlapped =
    push r (record { bytes = bytes; comp_key = comp_key; overlapped = overlapped })

-- A read outside the array is a fault; a queue without items gives `none` inside.
unfoldable pub iocp_get : Ring Completion → Option (Ring Completion × Option Completion)
iocp_get r =
    let first =
      get_elem? r.slots r.head >>= λ c. some (record r { head = next_of r.head }, some c) in
    if r.head == r.tail then some (r, none) else first

unfoldable pub tmsg_push : Ring ThreadMsg → ℕ → ℕ → ℕ → ℕ → Ring ThreadMsg
tmsg_push r tid msg wp lp = push r (record { tid = tid; msg = msg; wparam = wp; lparam = lp })

-- The loop that moves the later messages down one slot, from slot `j` on; `none` is a fault or too
-- little fuel.
unfoldable pub shift_down : ℕ → List ThreadMsg → ℕ → ℕ → Option (List ThreadMsg)
shift_down zero slots tail j = none
shift_down (suc fuel) slots tail j = elim (next_of j == tail) [
  | true ↦ some slots
  | false ↦ get_elem? slots (next_of j) >>= λ m. shift_down fuel (set slots j m) tail (next_of j)
]

-- The loop over the messages, from slot `i` on.
unfoldable pub pop_from : ℕ → Ring ThreadMsg → ℕ → ℕ → Option (Ring ThreadMsg × Option ThreadMsg)
pop_from zero r tid i = none
pop_from (suc fuel) r tid i = elim (i == r.tail) [
  | true ↦ some (r, none)
  | false ↦ get_elem? r.slots i >>= λ m. elim (m.tid == tid) [
    | true ↦ shift_down ring_size r.slots r.tail i >>= λ slots.
        some (record r { slots = slots; tail = (r.tail + ring_size - 1) % ring_size }, some m)
    | false ↦ pop_from fuel r tid (next_of i)
  ]
]

unfoldable pub tmsg_pop : Ring ThreadMsg → ℕ → Option (Ring ThreadMsg × Option ThreadMsg)
tmsg_pop r tid = pop_from ring_size r tid r.head
