-- ===== src/DllMapper/Reachable.antt =====
-- The tables that the operations of Sources/Win32/wg_dll_mapper.c and the moves of the engine lead to.
use mathlib.Core.Path.{subst}
use wine_glass.Base.{ℕ, ◌≡◌, sym, Bool, Option, some, List, get_elem?}
use wine_glass.DllMapper.Types.{StubFunc, Entry, Mapper, thunk_base, mapper_create}
use wine_glass.DllMapper.{register, resolve, map_thunks, entry_at, get_handler}
use wine_glass.DllMapper.Thunks.{
  IsMapper, mapper_create-IsMapper, register-IsMapper, resolve-IsMapper, map_thunks-IsMapper,
  entry_at-get,
}

pub data Reachable : Mapper → Type 0 where
  start : {m : Mapper} → m ≡ mapper_create → Reachable m
  registered :
      {m m' : Mapper} (dll func : List ℕ) (handler : Option StubFunc) (num_args : ℕ)
      → Reachable m
      → m' ≡ (register m dll func handler num_args).0
      → Reachable m'
  resolved :
      {m m' : Mapper} (dll func : List ℕ) (a : ℕ)
      → Reachable m
      → resolve m dll func ≡ some (m', a)
      → Reachable m'
  moved :
      {m m' : Mapper} (is_32bit : Bool) → Reachable m → m' ≡ map_thunks m is_32bit → Reachable m'

reachable-IsMapper : (m : Mapper) → Reachable m → (b : ℕ) × IsMapper b m
reachable-IsMapper m (Reachable.start e) =
    (thunk_base, subst (IsMapper thunk_base) (sym e) mapper_create-IsMapper)
reachable-IsMapper m' (Reachable.registered {m = m} dll func handler num_args r e) =
    let (b, v) = reachable-IsMapper m r in
    (b, subst (IsMapper b) (sym e) (register-IsMapper b m dll func handler num_args v))
reachable-IsMapper m' (Reachable.resolved {m = m} dll func a r e) =
    let (b, v) = reachable-IsMapper m r in (b, resolve-IsMapper b m m' dll func a v e)
reachable-IsMapper m' (Reachable.moved {m = m} is_32bit r e) =
    let (b, v) = reachable-IsMapper m r in
    (_, subst (IsMapper _) (sym e) (map_thunks-IsMapper b m is_32bit v))

-- However functions are registered and resolved and the thunks are moved to the range of an image, from
-- the new table on: the address of each entry leads back to that entry and to its handler.
pub reachable-entry_at :
    (m : Mapper) (i : ℕ) (e : Entry)
    → Reachable m
    → get_elem? m.entries i ≡ some e
    → (entry_at m e.thunk_addr ≡ some e) × (get_handler m e.thunk_addr ≡ some e.handler)
reachable-entry_at m i e r at = let (b, v) = reachable-IsMapper m r in entry_at-get b m i e v at
