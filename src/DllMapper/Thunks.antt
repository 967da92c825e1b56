-- ===== src/DllMapper/Thunks.antt =====
-- The addresses of the thunks of Sources/Win32/wg_dll_mapper.c.
use wine_glass.Base.{
  ℕ, zero, suc, ◌+◌, ◌*◌, ◌≤◌, ◌≡◌, ◌⊎◌, refl, sym, ap, ◌∙◌, [], ◌∷◌, ◌++◌, Bool, true, false,
  Option, none, some, List, leb, ◌==◌, Bool-cases, Option-cases, inl, inr, length, length-append,
  get_elem?, arith,
}
use mathlib.Core.Option.{some-injective}
use mathlib.Core.Path.{subst}
use wine_glass.DllMapper.Types.{StubFunc, Entry, Mapper, capacity, thunk_base, mapper_create}
use wine_glass.DllMapper.{
  first_entry, new_entry, register, resolve, or_stripped, or_auto_stub, find_stripped, stripped,
  is_exact, get_handler, handler_of, entry_at, moved, base_for, map_thunks,
}

-- The thunks stand in order, eight bytes apart, from `b` on.
abbrev pub Numbered : ℕ → List Entry → Type 0
Numbered b [] = Unit
Numbered b (e ∷ entries) = (e.thunk_addr ≡ b) × Numbered (b + 8) entries

pub record IsMapper (b : ℕ) (m : Mapper) : Type 0 where
  pub in_range : b ≤ thunk_base
  pub fits : length m.entries ≤ capacity
  pub next : m.next_thunk ≡ b + 8 * length m.entries
  pub numbered : Numbered b m.entries

Numbered-append :
    (b : ℕ) (entries : List Entry) (e : Entry)
    → Numbered b entries
    → e.thunk_addr ≡ b + 8 * length entries
    → Numbered b (entries ++ (e ∷ []))
Numbered-append b [] e v at = (omega (arith, at), tt)
Numbered-append b (x ∷ entries) e v at =
    (v.0, Numbered-append (b + 8) entries e v.1 (omega (arith, at)))

Numbered-moved : (b : ℕ) (entries : List Entry) → Numbered b (moved b entries)
unfolding moved
Numbered-moved b [] = tt
Numbered-moved b (e ∷ entries) = (refl, Numbered-moved (b + 8) entries)

length-moved : (b : ℕ) (entries : List Entry) → length (moved b entries) ≡ length entries
unfolding moved
length-moved b [] = refl
length-moved b (e ∷ entries) = ap suc (length-moved (b + 8) entries)

pub mapper_create-IsMapper : IsMapper thunk_base mapper_create
mapper_create-IsMapper = record {
  in_range = omega arith;
  fits = omega arith;
  next = refl;
  numbered = tt;
}

pub register-IsMapper :
    (b : ℕ) (m : Mapper) (dll func : List ℕ) (handler : Option StubFunc) (num_args : ℕ)
    → IsMapper b m
    → IsMapper b (register m dll func handler num_args).0
unfolding register
register-IsMapper b m dll func handler num_args v =
    elim (Bool-cases (leb capacity (length m.entries))) [
      | inl full ↦ rw full v
      | inr room ↦
          let e = new_entry m.next_thunk dll func handler num_args in
          let longer = length-append m.entries (e ∷ []) in
          rw room (record {
            in_range = v.in_range;
            fits = ground (arith, longer, room);
            next = ground (arith, longer, v.next, v.in_range, v.fits);
            numbered = Numbered-append b m.entries e v.numbered v.next;
          })
    ]

pub map_thunks-IsMapper :
    (b : ℕ) (m : Mapper) (is_32bit : Bool)
    → IsMapper b m
    → IsMapper (base_for is_32bit) (map_thunks m is_32bit)
unfolding map_thunks
map_thunks-IsMapper b m is_32bit v = record {
  in_range = ground arith;
  fits = omega (arith, length-moved (base_for is_32bit) m.entries, v.fits);
  next = omega (arith, length-moved (base_for is_32bit) m.entries);
  numbered = Numbered-moved (base_for is_32bit) m.entries;
}

-- The table after a resolution: as it was, or with one function more.
abbrev pub Resolved : Mapper → List ℕ → List ℕ → Mapper → Type 0
Resolved m dll func m' = (m' ≡ m) ⊎ (m' ≡ (register m dll func (some StubFunc.stub_default) 0).0)

auto-Resolved :
    (m : Mapper) (dll func : List ℕ) (thunk : Option ℕ)
    → Resolved m dll func (or_auto_stub m dll func thunk).0
auto-Resolved m dll func none = inr refl
auto-Resolved m dll func (some thunk) = inl refl

stripped-Resolved :
    (m m' : Mapper) (dll func : List ℕ) (a : ℕ) (o : Option Entry)
    → or_stripped m dll func o ≡ some (m', a)
    → Resolved m dll func m'
stripped-Resolved m m' dll func a (some x) e =
    inl (sym (ap (λ (r : Mapper × ℕ). r.0) (some-injective _ _ e)))
stripped-Resolved m m' dll func a none e = elim (Bool-cases (leb 63 (length dll))) [
  | inl long ↦ let g : ◌≡◌ {A = Option (Mapper × ℕ)} none (some (m', a)) = rw long at e in absurd cc
  | inr short ↦ elim (Option-cases (find_stripped (stripped dll) func m.entries)) [
    | inl fault ↦
        let g : ◌≡◌ {A = Option (Mapper × ℕ)} none (some (m', a)) = rw (short, fault) at e in
        absurd cc
    | inr (thunk, found) ↦
        let same : or_auto_stub m dll func thunk ≡ (m', a) =
          some-injective _ _ (rw (short, found) at e) in
        subst (Resolved m dll func) (ap (λ (r : Mapper × ℕ). r.0) same)
          (auto-Resolved m dll func thunk)
  ]
]

pub resolve-Resolved :
    (m m' : Mapper) (dll func : List ℕ) (a : ℕ)
    → resolve m dll func ≡ some (m', a)
    → Resolved m dll func m'
unfolding resolve
resolve-Resolved m m' dll func a e =
    stripped-Resolved m m' dll func a (first_entry (is_exact dll func) m.entries) e

pub resolve-IsMapper :
    (b : ℕ) (m m' : Mapper) (dll func : List ℕ) (a : ℕ)
    → IsMapper b m
    → resolve m dll func ≡ some (m', a)
    → IsMapper b m'
resolve-IsMapper b m m' dll func a v e = elim (resolve-Resolved m m' dll func a e) [
  | inl same ↦ subst (IsMapper b) (sym same) v
  | inr more ↦
      subst (IsMapper b) (sym more)
        (register-IsMapper b m dll func (some StubFunc.stub_default) 0 v)
]

first_at :
    (b t i : ℕ) (entries : List Entry)
    → Numbered b entries
    → t ≡ b + 8 * i
    → first_entry (λ e. e.thunk_addr == t) entries ≡ get_elem? entries i
unfolding first_entry
first_at b t i [] v at = refl
first_at b t zero (e ∷ entries) v at =
    let same : (e.thunk_addr == t) ≡ true = ground (arith, at, v.0) in rw same refl
first_at b t (suc i) (e ∷ entries) v at =
    let other : (e.thunk_addr == t) ≡ false = ground (arith, at, v.0) in
    rw other (first_at (b + 8) t i entries v.1 (omega (arith, at)))

Numbered-get :
    (b i : ℕ) (entries : List Entry) (e : Entry)
    → Numbered b entries
    → get_elem? entries i ≡ some e
    → e.thunk_addr ≡ b + 8 * i
Numbered-get b i [] e v at = absurd cc
Numbered-get b zero (x ∷ entries) e v at =
    omega (arith, v.0, ap (λ (x : Entry). x.thunk_addr) (some-injective _ _ at))
Numbered-get b (suc i) (x ∷ entries) e v at = omega (arith, Numbered-get (b + 8) i entries e v.1 at)

-- The thunk of an entry leads to that entry.
pub entry_at-get :
    (b : ℕ) (m : Mapper) (i : ℕ) (e : Entry)
    → IsMapper b m
    → get_elem? m.entries i ≡ some e
    → (entry_at m e.thunk_addr ≡ some e) × (get_handler m e.thunk_addr ≡ some e.handler)
unfolding entry_at get_handler
entry_at-get b m i e v at =
    let found =
      first_at b e.thunk_addr i m.entries v.numbered (Numbered-get b i m.entries e v.numbered at)
      ∙ at in
    (found, ap handler_of found)
