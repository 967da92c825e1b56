-- ===== src/X86/Decode/Safe.antt =====
-- The rules by which the decoder of Sources/CPU/wg_x86_decode.c is shown to stay in its buffer: a
-- predicate on decoding actions, with one rule for each way to build an action.
pub mod Fetches
pub mod Operands
pub mod Rows
pub mod Rest
pub mod Switch
pub mod Whole
use wine_glass.Base.{
  ℕ, ◌+◌, ◌≤◌, ◌<◌, ◌^◌, ◌≡◌, refl, sym, ◌∙◌, Bool, true, false, if◌then◌else◌, Option, none, some,
  arith, length, All, List, Bool-cases, Option-cases, inl, inr,
}
use wine_glass.Memory.Valid.{IsByte}
use wine_glass.X86.Decode.Fetch.{Ctx, Decoder, pure, ◌>>=◌, after_step}

pub record IsCtx (c : Ctx) : Type 0 where
  pub inside : c.pos ≤ c.end
  pub in_code : c.end ≤ length c.code
  pub bytes : All IsByte c.code
  pub r_bit : c.rex_r ≤ 1
  pub x_bit : c.rex_x ≤ 1
  pub b_bit : c.rex_b ≤ 1

-- A fault needs a buffer with no byte behind `end`. A result comes with a cursor that has not
-- moved back nor passed `end`.
abbrev pub Outcome : {A : Type 0} → (A → Type 0) → Ctx → Option (A × Ctx) → Type 0
Outcome Q c none = c.end ≡ length c.code
Outcome Q c (some (a, d)) = IsCtx d × (d.code ≡ c.code) × (d.end ≡ c.end) × (c.pos ≤ d.pos) × Q a

pub record Runs {A : Type 0} (Q : A → Type 0) (m : Decoder A) : Type 0 where
  pub at : (c : Ctx) → IsCtx c → Outcome Q c (m c)

module _ {A : Type 0} {Q : A → Type 0} where
  pub Runs-pure : (a : A) → Q a → Runs Q (pure a)
  Runs-pure a q = record { at = λ c h. (h, refl, refl, omega arith, q) }

  pub Runs-if : (b : Bool) (m n : Decoder A) → Runs Q m → Runs Q n → Runs Q (if b then m else n)
  Runs-if true m n h k = h
  Runs-if false m n h k = k

module _ {A : Type 0} {P Q : A → Type 0} where
  pub Runs-weaken : (m : Decoder A) → Runs P m → ((a : A) → P a → Q a) → Runs Q m
  Runs-weaken m h k = record { at = λ c v. weaker c (m c) (h.at c v) }
    where
      weaker : (c : Ctx) (r : Option (A × Ctx)) → Outcome P c r → Outcome Q c r
      weaker c none e = e
      weaker c (some (a, d)) (v, sc, se, mv, p) = (v, sc, se, mv, k a p)

module _ {A B : Type 0} {P : A → Type 0} {Q : B → Type 0} where
  chain :
      (c : Ctx) (r : Option (A × Ctx)) (f : A → Decoder B)
      → Outcome P c r
      → ((a : A) → P a → Runs Q (f a))
      → Outcome Q c (after_step r f)
  chain c none f h k = h
  chain c (some (a, d)) f (v, same_code, same_end, moved, p) k = later (f a d) ((k a p).at d v)
    where
      later : (r : Option (B × Ctx)) → Outcome Q d r → Outcome Q c r
      later none e = ground arith
      later (some (b, e)) (w, sc, se, mv, q) = (w, sc ∙ same_code, se ∙ same_end, omega arith, q)

  pub Runs-bind :
      (m : Decoder A) (f : A → Decoder B)
      → Runs P m
      → ((a : A) → P a → Runs Q (f a))
      → Runs Q (m >>= f)
  unfolding ◌>>=◌
  Runs-bind m f h k = record { at = λ c v. chain c (m c) f (h.at c v) k }
