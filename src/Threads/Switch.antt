-- ===== src/Threads/Switch.antt =====
-- `wg_sched_switch_next` of Sources/Win32/wg_threading.c: which thread it takes, and what the processor
-- holds then.
use wine_glass.Base.{ℕ, ◌+◌, ◌%◌, ◌≤◌, ◌<◌, ◌≡◌, ◌≢◌, Option, none, some, List, get_elem?}
use wine_glass.Threads.Types.{Thread, ThreadRegs, ThreadState, Blink}

-- What the bridge to the processor documents: what was set is read back, and nothing else changes.
-- The bridge has no reader of the FS base; `fs_base` stands for the processor's own.
pub record IsBridge {B : Type 0} (blink : Blink B) (fs_base : B → ℕ) : Type 0 where
  pub reg_set : (b : B) (i v : ℕ) → blink.get_reg (blink.set_reg b i v) i ≡ v
  pub reg_apart :
      (b : B) (i j v : ℕ) → i ≢ j → blink.get_reg (blink.set_reg b i v) j ≡ blink.get_reg b j
  pub rip_set : (b : B) (v : ℕ) → blink.get_rip (blink.set_rip b v) ≡ v
  pub rip_apart : (b : B) (v j : ℕ) → blink.get_reg (blink.set_rip b v) j ≡ blink.get_reg b j
  pub fs_set : (b : B) (v : ℕ) → fs_base (blink.set_fs_base b v) ≡ v
  pub fs_apart : (b : B) (v j : ℕ) → blink.get_reg (blink.set_fs_base b v) j ≡ blink.get_reg b j
  pub fs_rip : (b : B) (v : ℕ) → blink.get_rip (blink.set_fs_base b v) ≡ blink.get_rip b

-- The processor holds the saved registers.
pub record Restored {B : Type 0} (blink : Blink B) (fs_base : B → ℕ) (regs : ThreadRegs) (b : B)
    : Type 0 where
  pub gprs : (k v : ℕ) → get_elem? regs.gpr k ≡ some v → blink.get_reg b k ≡ v
  pub rip : blink.get_rip b ≡ regs.rip
  pub fs : fs_base b ≡ regs.fs_base

-- Slot `i` is the `m`th behind the current one, around the table, up to the current one itself;
-- without a current one they count from slot 0.
abbrev pub Behind : Option ℕ → ℕ → ℕ → Type 0
Behind none m i = (m ≤ 32) × (i + 1 ≡ m)
Behind (some c) m i = (0 < m) × (m ≤ 32) × (i ≡ (c + m) % 32)

-- A READY slot, and no nearer one is READY.
pub record NearestReady (ts : List Thread) (current : Option ℕ) (i : ℕ) (t : Thread) : Type 0 where
  pub distance : ℕ
  pub place : Behind current distance i
  pub at : get_elem? ts i ≡ some t
  pub ready : t.state ≡ ThreadState.ready
  pub nearest :
      (m j : ℕ) (u : Thread)
      → m < distance
      → Behind current m j
      → get_elem? ts j ≡ some u
      → u.state ≢ ThreadState.ready
