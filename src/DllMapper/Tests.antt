-- ===== src/DllMapper/Tests.antt =====
-- The table of thunks with concrete names.
use wine_glass.Base.{
  ℕ, ◌≡◌, refl, true, Option, none, some, List, [], ◌∷◌, arith, get_elem?, length, All,
}
use wine_glass.X86.State.{state_reset, set_reg, get_reg}
use wine_glass.DllMapper.Types.{StubFunc, Entry, Mapper, mapper_create}
use wine_glass.DllMapper.{
  register, resolve, find_any, get_handler, entry_at, map_thunks, moved, first_entry, equal,
  equal_case, lower, stripped, find_stripped,
}
use wine_glass.DllMapper.Stubs.{mul_div, call_stub, stub_rax}
use wine_glass.DllMapper.Reachable.{Reachable, reachable-entry_at}
use wine_glass.DllMapper.Resolve.{HasShortName, resolve-resolve}
use wine_glass.DllMapper.Thunks.{Resolved}
use wine_glass.DllMapper.Macros.{codes}
use wine_glass.DllMapper.Defaults.{register_all, register_defaults, register_defaults-Reachable}

-- "GDI32.dll", "gdi32", "Arc" and "Pie".
abbrev gdi32_dll : List ℕ
gdi32_dll = 0x47 ∷ 0x44 ∷ 0x49 ∷ 0x33 ∷ 0x32 ∷ 0x2E ∷ 0x64 ∷ 0x6C ∷ 0x6C ∷ []

abbrev gdi32 : List ℕ
gdi32 = 0x67 ∷ 0x64 ∷ 0x69 ∷ 0x33 ∷ 0x32 ∷ []

abbrev arc : List ℕ
arc = 0x41 ∷ 0x72 ∷ 0x63 ∷ []

abbrev pie : List ℕ
pie = 0x50 ∷ 0x69 ∷ 0x65 ∷ []

abbrev one : Mapper
one = (register mapper_create gdi32_dll arc (some StubFunc.stub_return_1) 9).0

abbrev two : Mapper
two = (register one gdi32 pie (some StubFunc.stub_default) 0).0

-- The suffix and the case of the library's name do not matter.
resolve_known : resolve one gdi32 arc ≡ some (one, 0xDEAD0000)
unfolding resolve register first_entry equal equal_case lower stripped find_stripped
resolve_known = refl

-- An unknown function gets a stub.
resolve_unknown : resolve one gdi32 pie ≡ some (two, 0xDEAD0008)
unfolding resolve register first_entry equal equal_case lower stripped find_stripped
resolve_unknown = refl

short_names : All HasShortName one.entries
unfolding register
short_names = (omega arith, tt)

resolve-resolve_example :
    (m' : Mapper) × (a : ℕ) × (resolve one gdi32 pie ≡ some (m', a))
    × Resolved one gdi32 pie m'
    × (resolve m' gdi32 pie ≡ some (m', a))
resolve-resolve_example = resolve-resolve one gdi32 pie (omega arith) (omega arith) short_names

-- The functions that are known from the start, at their places for a program of 32 bits.
abbrev guest : Mapper
guest = map_thunks (register_defaults mapper_create) true

guest-Reachable : Reachable guest
guest-Reachable =
    Reachable.moved true (register_defaults-Reachable mapper_create (Reachable.start refl)) refl

abbrev sleep : Entry
sleep = record {
  dll_name = codes "KERNEL32.dll";
  func_name = codes "Sleep";
  thunk_addr = 0xC00028;
  handler = StubFunc.stub_default;
  num_args = 1;
  default_ret = 0;
}

sleep_there : get_elem? guest.entries 5 ≡ some sleep
unfolding map_thunks moved register_defaults register_all register
sleep_there = refl

reachable-entry_at_example :
    (entry_at guest 0xC00028 ≡ some sleep)
    × (get_handler guest 0xC00028 ≡ some StubFunc.stub_default)
reachable-entry_at_example = reachable-entry_at guest 5 sleep guest-Reachable sleep_there

any_arc : find_any two arc ≡ 0xDEAD0000
unfolding find_any register first_entry equal
any_arc = refl

-- -7 * 3 / 2 is -10.
mul_div_negative : mul_div 0xFFFFFFF9 3 2 ≡ 0xFFFFFFFFFFFFFFF6
unfolding mul_div
mul_div_negative = refl

stub_result : get_reg (call_stub 0 0 StubFunc.stub_get_device_caps state_reset) 0 ≡ 96
unfolding get_reg call_stub stub_rax set_reg state_reset
stub_result = refl

all_registered : length (register_defaults mapper_create).entries ≡ 672
unfolding register_defaults register_all register
all_registered = refl

abbrev args_of : Option Entry → Option ℕ
args_of none = none
args_of (some e) = some e.num_args

-- `__WSAFDIsSet` takes two arguments.
fd_is_set :
    args_of (
      first_entry
        (λ e. equal e.func_name (codes "Ordinal_151"))
        (register_defaults mapper_create).entries)
    ≡ some 2
unfolding register_defaults register_all register first_entry equal
fd_is_set = refl
