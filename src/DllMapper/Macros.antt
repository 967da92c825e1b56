-- ===== src/DllMapper/Macros.antt =====
-- The macros R, RS and R1S of Sources/Win32/wg_dll_mapper.c. Names are written as text and kept as bytes.
use Prim.Native.Char.{code}
use Prim.Native.String.{String}
use wine_glass.Base.{ℕ, List, [], ◌∷◌}
use wine_glass.DllMapper.Types.{StubFunc}

-- The bytes of a text of ASCII.
abbrev pub codes : String → List ℕ
codes String.[] = []
codes (String.◌∷◌ c s) = code c ∷ codes s

-- The arguments of one call of `wg_dll_mapper_register`.
pub record Registration : Type 0 where
  pub dll : List ℕ
  pub func : List ℕ
  pub handler : StubFunc
  pub num_args : ℕ

abbrev pub r : String → String → StubFunc → ℕ → Registration
r dll func handler n = record {
  dll = codes dll;
  func = codes func;
  handler = handler;
  num_args = n;
}

abbrev pub rs : String → String → ℕ → Registration
rs dll func n = r dll func StubFunc.stub_default n

abbrev pub r1s : String → String → ℕ → Registration
r1s dll func n = r dll func StubFunc.stub_return_1 n
