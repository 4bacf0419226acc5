-- ===== src/LazyArray.antt =====
-- python/lazy-array.py: an array whose maps are applied only when a value is looked for.
pub mod Lookup
mod Tests
use code_recipes.Common.{ℕ, zero, suc, ◌+◌, if◌then◌else◌, List, [], ◌∷◌}
use code_recipes.Common.Int.{ℤ, pos, negsuc}
use code_recipes.Common.Eq.{int_beq}

pub record LazyArray : Type 0 where
  pub values : List ℤ
  pub fn : ℤ → ℤ

-- `LazyArray(values)`
abbrev pub of_values : List ℤ → LazyArray
of_values values = record { values = values; fn = λ x. x }

unfoldable pub map : (ℤ → ℤ) → LazyArray → LazyArray
map fn self = record { values = self.values; fn = λ i. fn (self.fn i) }

-- The loop of `indexOf`, from the index `idx` on.
unfoldable pub index_loop : (ℤ → ℤ) → ℤ → ℕ → List ℤ → ℤ
index_loop fn target idx [] = negsuc 0
index_loop fn target idx (v ∷ values) =
    if int_beq (fn v) target then pos idx else index_loop fn target (idx + 1) values

unfoldable pub index_of : ℤ → LazyArray → ℤ
unfolding index_loop
index_of target self = index_loop self.fn target 0 self.values
