-- ===== src/Common/Text.antt =====
-- Python string literals.
use Prim.Native.Char.{code}
use Prim.Native.String.{String}
use code_recipes.Common.{[], ◌∷◌}
use code_recipes.Common.Eq.{Str}

-- The code points of a text.
abbrev pub codes : String → Str
codes String.[] = []
codes (String.◌∷◌ c s) = code c ∷ codes s
