-- ===== src/Engine/Holds.antt =====
-- What holds of the result of a chain of calls that may fault.
use mathlib.Core.Path.{subst}
use mathlib.Core.Option.{some-injective}
use wine_glass.Base.{Option, some, Bool, true, false, if◌then◌else◌, ◌≡◌}
use wine_glass.Base.Fault.{◌>>=◌, >>=-eq-some}

pub record Holds {A : Type 0} (Q : A → Type 0) (o : Option A) : Type 0 where
  pub at : (a : A) → o ≡ some a → Q a

module _ {A : Type 0} {Q : A → Type 0} where
  pub Holds-some : (a : A) → Q a → Holds Q (some a)
  Holds-some a q = record { at = λ b e. subst Q (some-injective _ _ e) q }

  pub Holds-if : (b : Bool) (o p : Option A) → Holds Q o → Holds Q p → Holds Q (if b then o else p)
  Holds-if true o p h k = h
  Holds-if false o p h k = k

  pub Holds-bind :
      {B : Type 0} {R : B → Type 0} (o : Option A) (f : A → Option B)
      → Holds Q o
      → ((a : A) → Q a → Holds R (f a))
      → Holds R (o >>= f)
  Holds-bind o f h k = record {
    at = λ b e. let (a, is, rest) = >>=-eq-some o f e in (k a (h.at a is)).at b rest;
  }
