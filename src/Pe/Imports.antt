-- ===== src/Pe/Imports.antt =====
-- The loops of `parse_imports` of Sources/PE/wg_pe_loader.c end: each round reads further on in the
-- file.
use wine_glass.Base.{
  ℕ, zero, suc, ◌+◌, ◌-◌, ◌*◌, ◌≤◌, ◌<◌, ◌≡◌, ◌^◌, not, bit_and, ◌⊎◌, inl, inr, refl, Bool, true,
  false, ◌||◌, Option, none, some, List, [], ◌∷◌, ◌++◌, leb, ◌==◌, if◌then◌else◌, get_elem?,
  get_elem?-lt, length, Bool-cases, Option-cases, arith,
}
use wine_glass.Pe.Types.{Outcome, ◌>>=◌, Section, ImportDll, Directory}
use wine_glass.Base.Words.{u32, test_mask}
use wine_glass.Pe.{
  byte_of, read_le, c_string, import_func, import_funcs, Round, import_dll, import_round,
  import_loop, parse_imports, read_bytes, rva_to_ptr,
}

-- The run has a result or faults.
abbrev pub Ends {ℓ} : {A : Type ℓ} → Outcome A → Type 0
Ends (Outcome.ok a) = Unit
Ends Outcome.fault = Unit
Ends Outcome.out_of_fuel = ⊥

pub Ends->>= {ℓ κ} :
    {A : Type ℓ} {B : Type κ} (m : Outcome A) (f : A → Outcome B)
    → Ends m
    → ((a : A) → m ≡ Outcome.ok a → Ends (f a))
    → Ends (m >>= f)
Ends->>= (Outcome.ok a) f e h = h a refl
Ends->>= Outcome.fault f e h = tt
Ends->>= Outcome.out_of_fuel f e h = absurd e

byte_of-Ends : (b : Option ℕ) → Ends (byte_of b)
byte_of-Ends none = tt
byte_of-Ends (some b) = tt

pub read_le-Ends : (n : ℕ) (file : List ℕ) (p : ℕ) → Ends (read_le n file p)
unfolding read_le
read_le-Ends zero file p = tt
read_le-Ends (suc n) file p =
    Ends->>= (byte_of (get_elem? file p)) _ (byte_of-Ends (get_elem? file p))
      (λ b e. Ends->>= (read_le n file (p + 1)) _ (read_le-Ends n file (p + 1)) (λ r f. tt))

pub read_bytes-Ends : (n : ℕ) (file : List ℕ) (p : ℕ) → Ends (read_bytes n file p)
unfolding read_bytes
read_bytes-Ends zero file p = tt
read_bytes-Ends (suc n) file p =
    Ends->>= (byte_of (get_elem? file p)) _ (byte_of-Ends (get_elem? file p))
      (λ b e. Ends->>= (read_bytes n file (p + 1)) _ (read_bytes-Ends n file (p + 1)) (λ r f. tt))

c_string-Ends : (n : ℕ) (file : List ℕ) (p : ℕ) → Ends (c_string n file p)
unfolding c_string
c_string-Ends zero file p = tt
c_string-Ends (suc n) file p =
    Ends->>= (byte_of (get_elem? file p)) _ (byte_of-Ends (get_elem? file p))
      (λ b e. by_byte b (Bool-cases (b == 0)) (c_string-Ends n file (p + 1)))
  where
    by_byte :
        (b : ℕ)
        → ((b == 0) ≡ true) ⊎ ((b == 0) ≡ false)
        → Ends (c_string n file (p + 1))
        → Ends (elim (b == 0) [
          | true ↦ Outcome.ok []
          | false ↦ c_string n file (p + 1) >>= λ rest. Outcome.ok (b ∷ rest)
        ])
    by_byte b (inl e) k = rw e tt
    by_byte b (inr e) k = rw e (Ends->>= (c_string n file (p + 1)) _ k (λ r f. tt))

import_func-Ends :
    (file : List ℕ) (sections : List Section) (w iat_rva k thunk : ℕ)
    → Ends (import_func file sections w iat_rva k thunk)
unfolding import_func
import_func-Ends file sections w iat_rva k thunk =
    elim (Bool-cases (test_mask thunk (2 ^ (8 * w - 1)))) [
      | inl e ↦ rw e tt
      | inr e ↦ elim (Option-cases (rva_to_ptr sections (u32 (bit_and thunk 0x7FFFFFFF)))) [
        | inl f ↦ rw (e, f) tt
        | inr (hint, f) ↦
            rw (e, f)
              (Ends->>= (read_le 2 file hint) _ (read_le-Ends 2 file hint) λ n g.
                Ends->>= (c_string 255 file (hint + 2)) _ (c_string-Ends 255 file (hint + 2))
                  λ s h. tt)
      ]
    ]

import_funcs-Ends :
    (file : List ℕ) (sections : List Section) (w iat_rva room k p : ℕ)
    → Ends (import_funcs file sections w iat_rva room k p)
unfolding import_funcs
import_funcs-Ends file sections w iat_rva zero k p =
    Ends->>= (read_le w file p) _ (read_le-Ends w file p) (λ t e. tt)
import_funcs-Ends file sections w iat_rva (suc room) k p =
    Ends->>= (read_le w file p) _ (read_le-Ends w file p) λ t e.
      by_thunk t (Bool-cases (t == 0))
        (import_funcs-Ends file sections w iat_rva room (k + 1) (p + w))
  where
    by_thunk :
        (t : ℕ)
        → ((t == 0) ≡ true) ⊎ ((t == 0) ≡ false)
        → Ends (import_funcs file sections w iat_rva room (k + 1) (p + w))
        → Ends (elim (t == 0) [
          | true ↦ Outcome.ok []
          | false ↦ import_func file sections w iat_rva k t >>= λ f.
              import_funcs file sections w iat_rva room (k + 1) (p + w) >>= λ rest.
              Outcome.ok (f ∷ rest)
        ])
    by_thunk t (inl e) h = rw e tt
    by_thunk t (inr e) h = rw e (
        Ends->>= (import_func file sections w iat_rva k t) _
          (import_func-Ends file sections w iat_rva k t)
          λ f g. Ends->>= (import_funcs file sections w iat_rva room (k + 1) (p + w)) _ h λ r q. tt)

import_dll-Ends :
    (file : List ℕ) (sections : List Section) (w desc name : ℕ)
    → Ends (import_dll file sections w desc name)
unfolding import_dll
import_dll-Ends file sections w desc name =
    Ends->>= (c_string 255 file name) _ (c_string-Ends 255 file name) λ s e.
      Ends->>= (read_le 4 file desc) _ (read_le-Ends 4 file desc) λ o f.
        Ends->>= (read_le 4 file (desc + 16)) _ (read_le-Ends 4 file (desc + 16))
          λ t g. by_thunks s t (rva_to_ptr sections (if not (o == 0) then o else t))
  where
    by_thunks :
        (s : List ℕ) (first : ℕ) (r : Option ℕ)
        → Ends (elim r [
          | none ↦ Outcome.ok Round.skip
          | some thunk ↦ import_funcs file sections w first 4096 0 thunk >>= λ fs.
              Outcome.ok (Round.add (record { dll_name = s; functions = fs }))
        ])
    by_thunks s first none = tt
    by_thunks s first (some thunk) =
        Ends->>= (import_funcs file sections w first 4096 0 thunk) _
          (import_funcs-Ends file sections w first 4096 0 thunk) λ fs q. tt

import_round-Ends :
    (file : List ℕ) (sections : List Section) (w desc n : ℕ)
    → Ends (import_round file sections w desc n)
unfolding import_round
import_round-Ends file sections w desc n =
    Ends->>= (read_le 4 file (desc + 12)) _ (read_le-Ends 4 file (desc + 12)) λ name e.
      elim (Bool-cases ((name == 0) || leb 256 n)) [
        | inl f ↦ rw f tt
        | inr f ↦ elim (Option-cases (rva_to_ptr sections name)) [
          | inl g ↦ rw (f, g) tt
          | inr (p, g) ↦ rw (f, g) (import_dll-Ends file sections w desc p)
        ]
      ]

read_le-lt :
    (n : ℕ) (file : List ℕ) (p v : ℕ) → read_le (suc n) file p ≡ Outcome.ok v → p < length file
unfolding read_le
read_le-lt n file p v e = by_byte (get_elem? file p) refl e
  where
    by_byte :
        (b : Option ℕ)
        → get_elem? file p ≡ b
        → (byte_of b >>= λ b. read_le n file (p + 1) >>= λ rest. Outcome.ok (b + 256 * rest))
          ≡ Outcome.ok v
        → p < length file
    by_byte none f e = absurd cc
    by_byte (some b) f e = get_elem?-lt file p f

import_round-lt :
    (file : List ℕ) (sections : List Section) (w desc n : ℕ) (r : Round)
    → import_round file sections w desc n ≡ Outcome.ok r
    → desc + 12 < length file
unfolding import_round
import_round-lt file sections w desc n r e = by_name (read_le 4 file (desc + 12)) refl e
  where
    by_name :
        (m : Outcome ℕ)
        → read_le 4 file (desc + 12) ≡ m
        → (m >>= λ name.
            if (name == 0) || leb 256 n
            then Outcome.ok Round.stop
            else elim (rva_to_ptr sections name) [
              | none ↦ Outcome.ok Round.stop
              | some p ↦ import_dll file sections w desc p
            ])
          ≡ Outcome.ok r
        → desc + 12 < length file
    by_name (Outcome.ok v) f e = read_le-lt 3 file (desc + 12) v f
    by_name Outcome.fault f e = absurd cc
    by_name Outcome.out_of_fuel f e = absurd cc

import_loop-Ends :
    (fuel : ℕ) (file : List ℕ) (sections : List Section) (w desc n : ℕ) (dlls : List ImportDll)
    → length file ≤ desc + 12 + fuel
    → Ends (import_loop (suc fuel) file sections w desc n dlls)
unfolding import_loop
import_loop-Ends zero file sections w desc n dlls h =
    Ends->>= (import_round file sections w desc n) _ (import_round-Ends file sections w desc n)
      λ r e. absurd (omega (arith, import_round-lt file sections w desc n r e, h))
import_loop-Ends (suc fuel) file sections w desc n dlls h =
    Ends->>= (import_round file sections w desc n) _ (import_round-Ends file sections w desc n)
      λ r e.
        by_round r
          λ m more. import_loop-Ends fuel file sections w (desc + 20) m more (omega (arith, h))
  where
    by_round :
        (r : Round)
        → ((m : ℕ) (more : List ImportDll)
            → Ends (import_loop (suc fuel) file sections w (desc + 20) m more))
        → Ends (elim r [
          | Round.stop ↦ Outcome.ok dlls
          | Round.skip ↦ import_loop (suc fuel) file sections w (desc + 20) n dlls
          | Round.add d ↦
              import_loop (suc fuel) file sections w (desc + 20) (n + 1) (dlls ++ d ∷ [])
        ])
    by_round Round.stop rest = tt
    by_round Round.skip rest = rest n dlls
    by_round (Round.add d) rest = rest (n + 1) (dlls ++ d ∷ [])

pub parse_imports-Ends :
    (file : List ℕ) (sections : List Section) (is_64bit : Bool) (dir : Directory)
    → Ends (parse_imports file sections is_64bit dir)
unfolding parse_imports
parse_imports-Ends file sections is_64bit dir =
    elim (Bool-cases ((dir.rva == 0) || (dir.size == 0))) [
      | inl e ↦ rw e tt
      | inr e ↦ elim (Option-cases (rva_to_ptr sections dir.rva)) [
        | inl f ↦ rw (e, f) tt
        | inr (p, f) ↦
            rw (e, f)
              (import_loop-Ends (length file) file sections (if is_64bit then 8 else 4) p 0 []
                (omega arith))
      ]
    ]
