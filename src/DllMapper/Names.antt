-- ===== src/DllMapper/Names.antt =====
-- The comparison of names in Sources/Win32/wg_dll_mapper.c, and the search of the first entry.
use wine_glass.Base.{
  ℕ, zero, suc, ◌≤◌, ◌≡◌, refl, ap, [], ◌∷◌, ◌++◌, Bool, true, none, some, List, ◌==◌, Bool-cases,
  inl, inr, length, arith,
}
use wine_glass.DllMapper.Types.{Entry}
use wine_glass.DllMapper.{copied, lower, equal, equal_case, first_entry}

pub equal_refl : (s : List ℕ) → equal s s ≡ true
unfolding equal
equal_refl [] = refl
equal_refl (c ∷ s) = let e : (c == c) ≡ true = ground arith in rw (e, equal_refl s) refl

pub equal_case_refl : (s : List ℕ) → equal_case s s ≡ true
unfolding equal_case
equal_case_refl [] = refl
equal_case_refl (c ∷ s) =
    let e : (lower c == lower c) ≡ true = ground arith in rw (e, equal_case_refl s) refl

-- A name that fits is copied whole.
pub copied_whole : (n : ℕ) (s : List ℕ) → length s ≤ n → copied n s ≡ s
copied_whole zero [] l = refl
copied_whole zero (c ∷ s) l = absurd (omega (arith, l))
copied_whole (suc n) [] l = refl
copied_whole (suc n) (c ∷ s) l = ap (λ rest. c ∷ rest) (copied_whole n s (omega (arith, l)))

-- An entry that is added behind entries that do not pass the test is the first if it passes.
pub first_entry-append :
    (p : Entry → Bool) (entries : List Entry) (e : Entry)
    → first_entry p entries ≡ none
    → p e ≡ true
    → first_entry p (entries ++ (e ∷ [])) ≡ some e
unfolding first_entry
first_entry-append p [] e f t = rw t refl
first_entry-append p (x ∷ entries) e f t = elim (Bool-cases (p x)) [
  | inl k ↦ let g : some x ≡ none = rw (k, first_entry) at f in absurd cc
  | inr k ↦ rw k (first_entry-append p entries e (rw (k, first_entry) at f) t)
]
