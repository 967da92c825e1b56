-- ===== src/DllMapper/Resolve.antt =====
-- The search of a function in Sources/Win32/wg_dll_mapper.c finds what an earlier search found.
use wine_glass.Base.{
  ℕ, ◌≤◌, ◌<◌, ◌≡◌, refl, [], ◌∷◌, true, false, ◌&&◌, Option, none, some, List, leb, Bool-cases,
  Option-cases, inl, inr, length, All, arith,
}
use wine_glass.DllMapper.Types.{StubFunc, Entry, Mapper, capacity}
use wine_glass.DllMapper.{
  first_entry, new_entry, register, resolve, or_auto_stub, find_stripped, stripped, is_exact, equal,
  equal_case,
}
use wine_glass.DllMapper.Names.{equal_refl, equal_case_refl, copied_whole, first_entry-append}
use wine_glass.DllMapper.Thunks.{Resolved}

-- The name of the library leaves room for the terminator in the buffers of the second pass.
abbrev pub HasShortName : Entry → Type 0
HasShortName e = length e.dll_name < 63

find_stripped_total :
    (dll func : List ℕ) (entries : List Entry)
    → All HasShortName entries
    → (r : Option ℕ) × (find_stripped dll func entries ≡ some r)
unfolding find_stripped
find_stripped_total dll func [] v = (none, refl)
find_stripped_total dll func (e ∷ entries) v =
    let short : leb 63 (length e.dll_name) ≡ false = ground (arith, v.0) in
    elim (Bool-cases (equal_case (stripped e.dll_name) dll && equal e.func_name func)) [
      | inl hit ↦ (some e.thunk_addr, rw short (rw hit refl))
      | inr miss ↦
          let (r, rest) = find_stripped_total dll func entries v.1 in (r, rw short (rw miss rest))
    ]

module _ (m : Mapper) (dll func : List ℕ) (short : length dll < 63) (fits : length func ≤ 127) where
  abbrev auto_stub : Entry
  auto_stub = new_entry m.next_thunk dll func (some StubFunc.stub_default) 0

  auto_stub_exact : is_exact dll func auto_stub ≡ true
  auto_stub_exact =
      rw
        (
          copied_whole 63 dll (omega (arith, short)),
          copied_whole 127 func fits,
          equal_case_refl dll,
          equal_refl func,
        )
        refl

  -- After an automatic stub, the first pass finds it; in a full table all is as before.
  resolve-register :
      first_entry (is_exact dll func) m.entries ≡ none
      → resolve m dll func ≡ some (register m dll func (some StubFunc.stub_default) 0)
      → resolve (register m dll func (some StubFunc.stub_default) 0).0 dll func
        ≡ some (register m dll func (some StubFunc.stub_default) 0)
  unfolding resolve register
  resolve-register miss now = elim (Bool-cases (leb capacity (length m.entries))) [
    | inl full ↦ rw full (rw full at now)
    | inr room ↦
        rw room (
          rw (first_entry-append (is_exact dll func) m.entries auto_stub miss auto_stub_exact) refl)
  ]

  abbrev Settles : Type 0
  Settles =
      (m' : Mapper) × (a : ℕ) × (resolve m dll func ≡ some (m', a))
      × Resolved m dll func m'
      × (resolve m' dll func ≡ some (m', a))

  second_pass :
      (r : Option ℕ)
      → first_entry (is_exact dll func) m.entries ≡ none
      → find_stripped (stripped dll) func m.entries ≡ some r
      → Settles
  unfolding resolve
  second_pass r miss found =
      let room : leb 63 (length dll) ≡ false = ground (arith, short) in
      let now : resolve m dll func ≡ some (or_auto_stub m dll func r) =
        rw miss (rw room (rw found refl)) in
      settled r now
    where
      settled : (r : Option ℕ) → resolve m dll func ≡ some (or_auto_stub m dll func r) → Settles
      settled (some thunk) now = (m, thunk, now, inl refl, now)
      settled none now = (_, _, now, inr refl, resolve-register miss now)

  -- Where no name of a library has 63 bytes or more and that of the function at most 127, a resolution
  -- ends, with the table as it was or one automatic stub more, and a second resolution of the same
  -- names gives the same address and changes nothing.
  pub resolve-resolve :
      All HasShortName m.entries
      → (m' : Mapper) × (a : ℕ) × (resolve m dll func ≡ some (m', a))
        × Resolved m dll func m'
        × (resolve m' dll func ≡ some (m', a))
  unfolding resolve
  resolve-resolve v = elim (Option-cases (first_entry (is_exact dll func) m.entries)) [
    | inr (e, hit) ↦
        let now : resolve m dll func ≡ some (m, e.thunk_addr) = rw hit refl in
        (m, e.thunk_addr, now, inl refl, now)
    | inl miss ↦
        let (r, found) = find_stripped_total (stripped dll) func m.entries v in
        second_pass r miss found
  ]
