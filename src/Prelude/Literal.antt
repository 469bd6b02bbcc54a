-- ===== src/Prelude/Literal.antt =====
-- Texts written as literals, for tests: the code points of an ASCII string.
use Prim.Native.Char.{code}
use Prim.Native.String.{String}
use xsv.Prelude.{ℕ, List, [], ◌∷◌}

abbrev pub codes : String → List ℕ
codes String.[] = []
codes (String.◌∷◌ c s) = code c ∷ codes s
