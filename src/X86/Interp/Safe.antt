-- ===== src/X86/Interp/Safe.antt =====
-- The rules by which the interpreter of Sources/CPU/wg_x86_interp.c is shown to keep a valid
-- machine: a predicate on runs, with one rule for each way to build a run.
pub mod Operands
pub mod Arith
pub mod Flow
pub mod Whole
use wine_glass.Base.{
  ℕ, ◌+◌, ◌≤◌, ◌<◌, ◌^◌, ◌≡◌, refl, sym, ◌∙◌, Bool, true, false, if◌then◌else◌, Option, none, some,
  arith, length, get_elem?, get_elem?_total, set, All, All-get, All-set, length-set, List,
  Option-cases, inl, inr, lt→ltb, ltb,
}
use wine_glass.Memory.{Memory, read_word, write_word}
use wine_glass.Memory.Valid.{IsMemory, read_word-lt, write_word-IsMemory}
use wine_glass.X86.State.{Cpu, IsCpu, IsU64}
use wine_glass.X86.Interp.Operands.{
  Machine, Fault, Result, done, fault, Run, pure, raise, ◌>>=◌, ◌>>◌, after_run, or_fault, get_cpu,
  put_cpu, get_gpr, put_gpr, read_mem, write_mem, with_mem,
}

pub record IsMachine (s : Machine) : Type 0 where
  pub cpu_valid : IsCpu s.cpu
  pub mem_valid : IsMemory s.mem

-- The faults that a run from a valid machine may end in: all but an index past a register file.
abbrev pub IsPossible : Fault → Type 0
IsPossible Fault.bad_register = ⊥
IsPossible Fault.bad_access = Unit
IsPossible Fault.bad_shift = Unit
IsPossible Fault.signed_overflow = Unit
IsPossible Fault.over_read = Unit

abbrev pub Outcome : {A : Type 0} → (A → Type 0) → Result A → Type 0
Outcome Q (fault e) = IsPossible e
Outcome Q (done a s) = IsMachine s × Q a

pub record Keeps {A : Type 0} (Q : A → Type 0) (m : Run A) : Type 0 where
  pub at : (s : Machine) → IsMachine s → Outcome Q (m s)

abbrev pub Any : {A : Type 0} → A → Type 0
Any a = Unit

module _ {A : Type 0} {Q : A → Type 0} where
  pub Keeps-pure : (a : A) → Q a → Keeps Q (pure a)
  Keeps-pure a q = record { at = λ s h. (h, q) }

  pub Keeps-if : (b : Bool) (m n : Run A) → Keeps Q m → Keeps Q n → Keeps Q (if b then m else n)
  Keeps-if true m n h k = h
  Keeps-if false m n h k = k

  pub Keeps-or_fault :
      (e : Fault) (o : Option A)
      → IsPossible e
      → ((a : A) → o ≡ some a → Q a)
      → Keeps Q (or_fault e o)
  Keeps-or_fault e none p h = record { at = λ s v. p }
  Keeps-or_fault e (some a) p h = record { at = λ s v. (v, h a refl) }

module _ {A B : Type 0} {P : A → Type 0} {Q : B → Type 0} where
  chain :
      (r : Result A) (f : A → Run B)
      → Outcome P r
      → ((a : A) → P a → Keeps Q (f a))
      → Outcome Q (after_run r f)
  chain (fault e) f h k = h
  chain (done a s) f (v, p) k = (k a p).at s v

  pub Keeps-bind :
      (m : Run A) (f : A → Run B) → Keeps P m → ((a : A) → P a → Keeps Q (f a)) → Keeps Q (m >>= f)
  unfolding ◌>>=◌
  Keeps-bind m f h k = record { at = λ s v. chain (m s) f (h.at s v) k }

module _ {A : Type 0} {P Q : A → Type 0} where
  pub Keeps-weaken : (m : Run A) → Keeps P m → ((a : A) → P a → Q a) → Keeps Q m
  Keeps-weaken m h k = record { at = λ s v. weaker (m s) (h.at s v) }
    where
      weaker : (r : Result A) → Outcome P r → Outcome Q r
      weaker (fault e) p = p
      weaker (done a s) (v, p) = (v, k a p)

module _ {B : Type 0} {Q : B → Type 0} where
  pub Keeps-then : (m : Run Unit) (n : Run B) → Keeps Any m → Keeps Q n → Keeps Q (m >> n)
  Keeps-then m n h k = Keeps-bind m (λ _. n) h λ _ _. k

pub get_cpu-Keeps : Keeps IsCpu get_cpu
unfolding get_cpu
get_cpu-Keeps = record { at = λ s h. (h, h.cpu_valid) }

pub put_cpu-Keeps : (cpu : Cpu) → IsCpu cpu → Keeps Any (put_cpu cpu)
unfolding put_cpu
put_cpu-Keeps cpu k = record { at = λ s h. (record { cpu_valid = k; mem_valid = h.mem_valid }, tt) }

pub get_gpr-Keeps : (r : ℕ) → r < 16 → Keeps IsU64 (get_gpr r)
unfolding get_gpr
get_gpr-Keeps r h = record { at = read }
  where
    read : (s : Machine) → IsMachine s → Outcome IsU64 (get_gpr r s)
    read s v =
        let c = v.cpu_valid in
        let (x, e) = get_elem?_total s.cpu.gpr r (omega (arith, c.gprs, h)) in
        rw e (v, All-get IsU64 s.cpu.gpr r c.gpr_fits e)

pub put_gpr-Keeps : (r v : ℕ) → r < 16 → v < 2 ^ 64 → Keeps Any (put_gpr r v)
unfolding put_gpr
put_gpr-Keeps r x h k = record { at = write }
  where
    write : (s : Machine) → IsMachine s → Outcome Any (put_gpr r x s)
    write s v =
        let c = v.cpu_valid in
        let inside = lt→ltb r (length s.cpu.gpr) (omega (arith, c.gprs, h)) in
        rw inside (
          record {
            cpu_valid = record {
              gprs = length-set s.cpu.gpr r x ∙ c.gprs;
              gpr_fits = All-set IsU64 s.cpu.gpr r x c.gpr_fits k;
              rip_fits = c.rip_fits;
              rflags_fits = c.rflags_fits;
              xmms = c.xmms;
              xmm_fits = c.xmm_fits;
            };
            mem_valid = v.mem_valid;
          },
          tt,
        )

pub read_mem-Keeps : (n addr : ℕ) → Keeps (λ v. v < 256 ^ n) (read_mem (read_word n) addr)
unfolding read_mem
read_mem-Keeps n addr = record { at = read }
  where
    read : (s : Machine) → IsMachine s → Outcome (λ v. v < 256 ^ n) (read_mem (read_word n) addr s)
    read s v = elim (Option-cases (read_word n s.mem addr)) [
      | inl e ↦ rw e tt
      | inr (x, e) ↦ rw e (v, read_word-lt n s.mem addr v.mem_valid e)
    ]

pub write_mem-Keeps : (n addr x : ℕ) → Keeps Any (write_mem (write_word n) addr x)
unfolding write_mem
write_mem-Keeps n addr x = record { at = write }
  where
    write : (s : Machine) → IsMachine s → Outcome Any (write_mem (write_word n) addr x s)
    write s v = elim (Option-cases (write_word n s.mem addr x)) [
      | inl e ↦ rw e tt
      | inr (m, e) ↦ rw e (
        record {
          cpu_valid = v.cpu_valid;
          mem_valid = write_word-IsMemory n s.mem addr x v.mem_valid e;
        },
        tt,
      )
    ]
