-- ===== src/X86/Interp/Blocks.antt =====
-- `wg_x86_exec_block` of Sources/CPU/wg_x86_interp.c: where it stops.
use mathlib.Core.Path.{subst}
use wine_glass.Base.{ℕ, zero, suc, ◌<◌, ◌≡◌, ◌⊎◌, refl, sym, ap, ◌∙◌, inl, inr, arith}
use wine_glass.X86.Interp.Operands.{Machine, Result, done, fault, Fault, ◌>>=◌}
use wine_glass.X86.Interp.Flow.{InterpResult}
use wine_glass.X86.Interp.{exec_one, exec_block}

-- `k` instructions that each end with `ok` lead from one machine to another.
pub data OkSteps : ℕ → Machine → Machine → Type 0 where
  here : {s : Machine} → OkSteps 0 s s
  next :
      {k : ℕ} {s t u : Machine}
      → exec_one s ≡ done InterpResult.ok t
      → OkSteps k t u
      → OkSteps (suc k) s u

-- What an instruction ends with where no other may follow: a halt, a system call, an error or a fault.
pub data IsStop : Result InterpResult → Type 0 where
  halted : {t : Machine} → IsStop (done InterpResult.halt t)
  called : {t : Machine} → IsStop (done InterpResult.syscall t)
  failed : {t : Machine} → IsStop (done InterpResult.error t)
  faulted : {e : Fault} → IsStop (fault e)

-- A run of `k` instructions that all end with `ok`, up to the limit `n` or up to an instruction that
-- stops it; in the second case every limit above `k` gives what that instruction gives.
abbrev pub EndsAt : ℕ → Machine → ℕ → Machine → Type 0
EndsAt n s k u =
    ((k ≡ n) × (exec_block n s ≡ done InterpResult.ok u))
    ⊎ ((k < n) × IsStop (exec_one u) × ((m : ℕ) → k < m → exec_block m s ≡ exec_one u))

stop_block :
    (m : ℕ) (s : Machine) (r : Result InterpResult)
    → exec_one s ≡ r
    → IsStop r
    → exec_block (suc m) s ≡ exec_one s
unfolding exec_block ◌>>=◌
stop_block m s r e IsStop.halted = rw e refl
stop_block m s r e IsStop.called = rw e refl
stop_block m s r e IsStop.failed = rw e refl
stop_block m s r e IsStop.faulted = rw e refl

later_block :
    (m : ℕ) (s t : Machine)
    → exec_one s ≡ done InterpResult.ok t
    → exec_block (suc m) s ≡ exec_block m t
unfolding exec_block ◌>>=◌
later_block m s t e = rw e refl

stops_at_once :
    (n : ℕ) (s : Machine) (r : Result InterpResult)
    → exec_one s ≡ r
    → IsStop r
    → (k : ℕ) × (u : Machine) × OkSteps k s u × EndsAt (suc n) s k u
stops_at_once n s r e stop =
    (0, s, OkSteps.here, inr (omega arith, subst IsStop (sym e) stop, every))
  where
    every : (m : ℕ) → 0 < m → exec_block m s ≡ exec_one s
    every zero l = absurd (omega (arith, l))
    every (suc m) l = stop_block m s r e stop

goes_on :
    (n : ℕ) (s t : Machine)
    → exec_one s ≡ done InterpResult.ok t
    → (k : ℕ) × (u : Machine) × OkSteps k t u × EndsAt n t k u
    → (k : ℕ) × (u : Machine) × OkSteps k s u × EndsAt (suc n) s k u
goes_on n s t e (k, u, steps, inl (all, end)) =
    (suc k, u, OkSteps.next e steps, inl (ap suc all, later_block n s t e ∙ end))
goes_on n s t e (k, u, steps, inr (l, stop, end)) =
    (suc k, u, OkSteps.next e steps, inr (omega (arith, l), stop, every))
  where
    every : (m : ℕ) → suc k < m → exec_block m s ≡ exec_one u
    every zero l = absurd (omega (arith, l))
    every (suc m) l = later_block m s t e ∙ end m (omega (arith, l))

-- A block executes instructions as long as each ends with `ok`: either as many as the limit says, and
-- it ends with `ok` in the machine after them, or fewer, and it ends with what the first instruction
-- gives that halts, calls the system, is an error or faults. No instruction behind that one is
-- executed, whatever the limit is.
pub exec_block_stops :
    (n : ℕ) (s : Machine) → (k : ℕ) × (u : Machine) × OkSteps k s u × EndsAt n s k u
unfolding exec_block
exec_block_stops zero s = (0, s, OkSteps.here, inl (refl, refl))
exec_block_stops (suc n) s = by_first (exec_one s) refl (λ t. exec_block_stops n t)
  where
    by_first :
        (r : Result InterpResult)
        → exec_one s ≡ r
        → ((t : Machine) → (k : ℕ) × (u : Machine) × OkSteps k t u × EndsAt n t k u)
        → (k : ℕ) × (u : Machine) × OkSteps k s u × EndsAt (suc n) s k u
    by_first (fault x) e rest = stops_at_once n s (fault x) e IsStop.faulted
    by_first (done InterpResult.ok t) e rest = goes_on n s t e (rest t)
    by_first (done InterpResult.halt t) e rest = stops_at_once n s _ e IsStop.halted
    by_first (done InterpResult.syscall t) e rest = stops_at_once n s _ e IsStop.called
    by_first (done InterpResult.error t) e rest = stops_at_once n s _ e IsStop.failed
