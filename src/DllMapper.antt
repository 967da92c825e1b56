-- ===== src/DllMapper.antt =====
-- Sources/Win32/wg_dll_mapper.c, the table of thunks for Win32 functions, and the part of
-- `map_thunks_to_blink` of Sources/Core/wg_engine.c that moves the thunks. Names are lists of bytes.
-- A loop over the entries is recursion on them.
pub mod Types
pub mod Stubs
pub mod Names
pub mod Thunks
pub mod Reachable
pub mod Resolve
pub mod Macros
pub mod Defaults
mod Tests
use wine_glass.Base.{
  ℕ, zero, suc, ◌+◌, ◌-◌, ◌*◌, ◌/◌, ◌^◌, ◌%◌, [], ◌∷◌, ◌++◌, Bool, true, false, ◌&&◌, ◌||◌, not,
  Option, none, some, List, ltb, leb, ◌==◌, if◌then◌else◌, length, set,
}
use wine_glass.Base.Words.{u32, u64}
use wine_glass.Base.Fault.{◌>>=◌}
use wine_glass.X86.State.{Cpu, get_reg, set_reg, reg_rax, reg_rcx, reg_rdx}
use wine_glass.DllMapper.Types.{StubFunc, Entry, Mapper, capacity}

-- `strncpy` of at most `n` bytes into a zeroed buffer that is longer.
abbrev pub copied : ℕ → List ℕ → List ℕ
copied zero s = []
copied (suc n) [] = []
copied (suc n) (c ∷ s) = c ∷ copied n s

-- `tolower` in the C locale.
unfoldable pub lower : ℕ → ℕ
lower c = if leb 0x41 c && leb c 0x5A then c + 0x20 else c

-- `strcmp(a, b) == 0`
unfoldable pub equal : List ℕ → List ℕ → Bool
equal [] [] = true
equal [] (d ∷ b) = false
equal (c ∷ a) [] = false
equal (c ∷ a) (d ∷ b) = (c == d) && equal a b

-- `strcasecmp(a, b) == 0`
unfoldable pub equal_case : List ℕ → List ℕ → Bool
equal_case [] [] = true
equal_case [] (d ∷ b) = false
equal_case (c ∷ a) [] = false
equal_case (c ∷ a) (d ∷ b) = (lower c == lower d) && equal_case a b

abbrev pub has_dot : List ℕ → Bool
has_dot [] = false
has_dot (c ∷ s) = (c == 0x2E) || has_dot s

-- Up to the last dot.
unfoldable pub stripped : List ℕ → List ℕ
stripped [] = []
stripped (c ∷ s) =
    let rest = stripped s in if has_dot s then c ∷ rest else if c == 0x2E then [] else c ∷ rest

-- The first entry that passes a test, as the loops return it.
unfoldable pub first_entry : (Entry → Bool) → List Entry → Option Entry
first_entry p [] = none
first_entry p (e ∷ entries) = let rest = first_entry p entries in if p e then some e else rest

-- A NULL pointer stands for the default stub.
abbrev pub handler_or_default : Option StubFunc → StubFunc
handler_or_default none = StubFunc.stub_default
handler_or_default (some f) = f

abbrev pub ret_of : Option StubFunc → ℕ
ret_of (some StubFunc.stub_return_1) = 1
ret_of (some StubFunc.stub_return_neg1) = 2 ^ 32 - 1
ret_of (some StubFunc.stub_get_current_process) = 2 ^ 32 - 1
ret_of f = 0

abbrev pub new_entry : ℕ → List ℕ → List ℕ → Option StubFunc → ℕ → Entry
new_entry thunk dll func handler num_args = record {
  dll_name = copied 63 dll;
  func_name = copied 127 func;
  thunk_addr = thunk;
  handler = handler_or_default handler;
  num_args = num_args;
  default_ret = ret_of handler;
}

-- The table, and the address of the thunk, or 0.
unfoldable pub register : Mapper → List ℕ → List ℕ → Option StubFunc → ℕ → Mapper × ℕ
register m dll func handler num_args = if leb capacity (length m.entries) then (m, 0) else (
  record {
    entries = m.entries ++ (new_entry m.next_thunk dll func handler num_args ∷ []);
    next_thunk = u64 (m.next_thunk + 8);
  },
  m.next_thunk,
)

abbrev pub is_exact : List ℕ → List ℕ → Entry → Bool
is_exact dll func e = equal_case e.dll_name dll && equal e.func_name func

-- The second pass. A name of 63 bytes fills all of `entry_stripped` but its last byte, which is not
-- set: the search for the dot reads on behind it, a fault.
unfoldable pub find_stripped : List ℕ → List ℕ → List Entry → Option (Option ℕ)
find_stripped dll func [] = some none
find_stripped dll func (e ∷ entries) =
    let rest = find_stripped dll func entries in
    if leb 63 (length e.dll_name)
    then none
    else if equal_case (stripped e.dll_name) dll && equal e.func_name func
    then some (some e.thunk_addr)
    else rest

abbrev pub or_auto_stub : Mapper → List ℕ → List ℕ → Option ℕ → Mapper × ℕ
or_auto_stub m dll func (some thunk) = (m, thunk)
or_auto_stub m dll func none = register m dll func (some StubFunc.stub_default) 0

abbrev pub or_stripped : Mapper → List ℕ → List ℕ → Option Entry → Option (Mapper × ℕ)
or_stripped m dll func (some e) = some (m, e.thunk_addr)
or_stripped m dll func none =
    if leb 63 (length dll)
    then none
    else find_stripped (stripped dll) func m.entries >>= λ thunk.
        some (or_auto_stub m dll func thunk)

unfoldable pub resolve : Mapper → List ℕ → List ℕ → Option (Mapper × ℕ)
resolve m dll func = or_stripped m dll func (first_entry (is_exact dll func) m.entries)

abbrev pub thunk_or_zero : Option Entry → ℕ
thunk_or_zero none = 0
thunk_or_zero (some e) = e.thunk_addr

unfoldable pub find_any : Mapper → List ℕ → ℕ
find_any m func = thunk_or_zero (first_entry (λ e. equal e.func_name func) m.entries)

abbrev pub handler_of : Option Entry → Option StubFunc
handler_of none = none
handler_of (some e) = some e.handler

unfoldable pub get_handler : Mapper → ℕ → Option StubFunc
get_handler m thunk = handler_of (first_entry (λ e. e.thunk_addr == thunk) m.entries)

-- The entry that the engine finds for a thunk that the guest reached.
unfoldable pub entry_at : Mapper → ℕ → Option Entry
entry_at m thunk = first_entry (λ e. e.thunk_addr == thunk) m.entries

-- `map_thunks_to_blink`: every entry gets its place in the range for the image, and so does the next.
unfoldable pub moved : ℕ → List Entry → List Entry
moved b [] = []
moved b (e ∷ entries) = record e { thunk_addr = b } ∷ moved (b + 8) entries

abbrev pub base_for : Bool → ℕ
base_for is_32bit = if is_32bit then 0xC00000 else 0xDEAD0000

unfoldable pub map_thunks : Mapper → Bool → Mapper
map_thunks m is_32bit = record {
  entries = moved (base_for is_32bit) m.entries;
  next_thunk = base_for is_32bit + length m.entries * 8;
}
