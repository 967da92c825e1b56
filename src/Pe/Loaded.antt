-- ===== src/Pe/Loaded.antt =====
-- What holds of every image that Sources/PE/wg_pe_loader.c loads.
use mathlib.Core.Path.{subst}
use mathlib.Core.Option.{some-injective}
use wine_glass.Base.{
  ℕ, zero, suc, ◌+◌, ◌^◌, ◌≤◌, ◌<◌, ◌≡◌, ◌⊎◌, inl, inr, refl, sym, ap, ◌∙◌, true, false, ◌&&◌, none,
  some, List, [], ◌∷◌, leb, ltb, ◌==◌, length, All, Bool-cases, arith,
}
use wine_glass.Base.Words.{u32}
use wine_glass.Pe.Types.{Outcome, ◌>>=◌, Section, ImportFunc, ImportDll}
use wine_glass.Pe.{
  read_le, import_func, import_funcs, read_bytes, section_at, sections_at, raw_start,
}

-- The result, where there is one, has the property.
abbrev pub Yields {ℓ κ} : {A : Type ℓ} → (A → Type κ) → Outcome A → Type κ
Yields P (Outcome.ok a) = P a
Yields P Outcome.fault = Unit
Yields P Outcome.out_of_fuel = Unit

pub Yields->>= {ℓ κ ι} :
    {A : Type ℓ} {B : Type κ} (P : B → Type ι) (m : Outcome A) (f : A → Outcome B)
    → ((a : A) → m ≡ Outcome.ok a → Yields P (f a))
    → Yields P (m >>= f)
Yields->>= P (Outcome.ok a) f h = h a refl
Yields->>= P Outcome.fault f h = tt
Yields->>= P Outcome.out_of_fuel f h = tt

pub of_Yields {ℓ κ} :
    {A : Type ℓ} (P : A → Type κ) (m : Outcome A) (a : A) → Yields P m → m ≡ Outcome.ok a → P a
of_Yields P m a y e = subst (Yields P) e y

-- The bytes of a section start where its header says, and end in the file if the end does not
-- wrap.
pub record IsPlaced (file : List ℕ) (s : Section) : Type 0 where
  pub starts : (o : ℕ) → s.start ≡ some o → o ≡ s.raw_offset
  pub ends :
      (o : ℕ) → s.start ≡ some o → s.raw_offset + s.raw_size < 2 ^ 32 → o + s.raw_size ≤ length file

raw_start-cases :
    (file : List ℕ) (offset size : ℕ)
    → (raw_start file offset size ≡ none)
      ⊎ ((raw_start file offset size ≡ some offset) × (u32 (offset + size) ≤ length file))
raw_start-cases file offset size =
    elim (Bool-cases (ltb 0 offset && ltb 0 size && leb (u32 (offset + size)) (length file))) [
      | inl e ↦ inr (rw e refl, ground arith)
      | inr e ↦ inl (rw e refl)
    ]

placed :
    (file : List ℕ) (s : Section)
    → s.start ≡ raw_start file s.raw_offset s.raw_size
    → IsPlaced file s
placed file s e = elim (raw_start-cases file s.raw_offset s.raw_size) [
  | inl f ↦ record { starts = λ o g. absurd cc; ends = λ o g h. absurd cc }
  | inr (f, l) ↦ record {
    starts = λ o g. some-injective _ _ (sym g ∙ e ∙ f);
    ends = λ o g h. omega (arith, l, h, some-injective _ _ (sym g ∙ e ∙ f));
  }
]

section_at-IsPlaced : (file : List ℕ) (p : ℕ) → Yields (IsPlaced file) (section_at file p)
unfolding section_at
section_at-IsPlaced file p = Yields->>= (IsPlaced file) (read_bytes 8 file p) _ λ a e.
    Yields->>= (IsPlaced file) (read_le 4 file (p + 8)) _ λ b f.
      Yields->>= (IsPlaced file) (read_le 4 file (p + 12)) _ λ c g.
        Yields->>= (IsPlaced file) (read_le 4 file (p + 16)) _ λ d h.
          Yields->>= (IsPlaced file) (read_le 4 file (p + 20)) _
            λ o k. Yields->>= (IsPlaced file) (read_le 4 file (p + 36)) _ λ q l. placed file _ refl

-- The sections are those of the `n` headers from `p` on.
abbrev pub Headers : List ℕ → ℕ → ℕ → List Section → Type 0
Headers file zero p [] = Unit
Headers file zero p (s ∷ sections) = ⊥
Headers file (suc n) p [] = ⊥
Headers file (suc n) p (s ∷ sections) =
    (section_at file p ≡ Outcome.ok s) × IsPlaced file s × Headers file n (p + 40) sections

pub sections_at-Headers :
    (file : List ℕ) (n p : ℕ) → Yields (Headers file n p) (sections_at file n p)
unfolding sections_at
sections_at-Headers file zero p = tt
sections_at-Headers file (suc n) p =
    Yields->>= (Headers file (suc n) p) (section_at file p) _ λ s e.
      Yields->>= (Headers file (suc n) p) (sections_at file n (p + 40)) _ λ r f. (
        e,
        of_Yields (IsPlaced file) (section_at file p) s (section_at-IsPlaced file p) e,
        of_Yields (Headers file n (p + 40)) (sections_at file n (p + 40)) r
            (sections_at-Headers file n (p + 40)) f,
      )

pub length-Headers :
    (file : List ℕ) (n p : ℕ) (sections : List Section)
    → Headers file n p sections
    → length sections ≡ n
length-Headers file zero p [] h = refl
length-Headers file zero p (s ∷ sections) h = absurd h
length-Headers file (suc n) p [] h = absurd h
length-Headers file (suc n) p (s ∷ sections) h =
    ap suc (length-Headers file n (p + 40) sections h.2)

-- The tables of imports hold what is stored in them.
abbrev pub Few : ImportDll → Type 0
Few d = length d.functions ≤ 4096

abbrev pub Fits : List ImportDll → Type 0
Fits dlls = (length dlls ≤ 256) × All Few dlls

pub import_funcs-length :
    (file : List ℕ) (sections : List Section) (w iat_rva room k p : ℕ)
    → Yields (λ fs. length fs ≤ room) (import_funcs file sections w iat_rva room k p)
unfolding import_funcs
import_funcs-length file sections w iat_rva zero k p =
    Yields->>= (λ (fs : List ImportFunc). length fs ≤ zero) (read_le w file p) _
      (λ t e. omega arith)
import_funcs-length file sections w iat_rva (suc room) k p =
    Yields->>= (λ (fs : List ImportFunc). length fs ≤ suc room) (read_le w file p) _
      λ t e.
        by_thunk t (Bool-cases (t == 0))
          (import_funcs-length file sections w iat_rva room (k + 1) (p + w))
  where
    by_thunk :
        (t : ℕ)
        → ((t == 0) ≡ true) ⊎ ((t == 0) ≡ false)
        → Yields
            (λ fs. length fs ≤ room)
            (import_funcs file sections w iat_rva room (k + 1) (p + w))
        → Yields
            (λ (fs : List ImportFunc). length fs ≤ suc room)
            (elim (t == 0) [
              | true ↦ Outcome.ok []
              | false ↦ import_func file sections w iat_rva k t >>= λ f.
                  import_funcs file sections w iat_rva room (k + 1) (p + w) >>= λ rest.
                  Outcome.ok (f ∷ rest)
            ])
    by_thunk t (inl e) h = rw e (omega arith)
    by_thunk t (inr e) h = rw e (
        Yields->>= (λ (fs : List ImportFunc). length fs ≤ suc room)
          (import_func file sections w iat_rva k t) _
          λ f g.
            Yields->>= (λ (fs : List ImportFunc). length fs ≤ suc room)
              (import_funcs file sections w iat_rva room (k + 1) (p + w)) _
              λ r q. omega (
                arith,
                of_Yields (λ (fs : List ImportFunc). length fs ≤ room)
                    (import_funcs file sections w iat_rva room (k + 1) (p + w)) r h q,
              ))
