-- ===== src/LazyArray/Tests.antt =====
-- Runs of the tests in python/lazy-array.py, and the theorem at one of them.
use code_recipes.Common.{◌≡◌, refl, List, [], ◌∷◌}
use code_recipes.Common.Int.{ℤ, pos, negsuc, ◌+ℤ◌}
use code_recipes.LazyArray.{of_values, map, index_of}
use code_recipes.LazyArray.Lookup.{map_all, mapped, FirstAt, index_of-FirstAt}

abbrev numbers : List ℤ
numbers = pos 1 ∷ pos 1 ∷ pos 2 ∷ pos 2 ∷ pos 3 ∷ []

abbrev maps : List (ℤ → ℤ)
maps = (λ x. x +ℤ pos 1) ∷ (λ x. x +ℤ pos 2) ∷ []

second_pair : index_of (pos 5) (map_all maps (of_values numbers)) ≡ pos 2
unfolding index_of map ◌+ℤ◌
second_pair = refl

nowhere : index_of (pos 9) (map_all maps (of_values numbers)) ≡ negsuc 0
unfolding index_of map ◌+ℤ◌
nowhere = refl

index_of-FirstAt_example :
    FirstAt (pos 5) (mapped maps numbers) (index_of (pos 5) (map_all maps (of_values numbers)))
index_of-FirstAt_example = index_of-FirstAt maps numbers (pos 5)
