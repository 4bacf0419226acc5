-- ===== src/Fancy/Tests.antt =====
-- The run at the end of python/segment-tree-2.py, and the refinement at its calls.
use code_recipes.Common.{ℕ, ◌≡◌, refl, List, [], ◌∷◌}
use code_recipes.Common.Int.{pos, negsuc}
use code_recipes.Common.Result.{ok, ◌>>=◌}
use code_recipes.Fancy.Sequence.{Fancy, new, get_index}
use code_recipes.Fancy.Refines.{Op, run, get_list, run_list, fancy_refines_list}

abbrev calls : List Op
calls =
    Op.append 2
    ∷ Op.add_all 3
    ∷ Op.append 7
    ∷ Op.mult_all 2
    ∷ Op.add_all 3
    ∷ Op.append 10
    ∷ Op.mult_all 2
    ∷ []

first_listed : get_list 0 (run_list calls []) ≡ pos 26
first_listed = refl

past_listed : get_list 3 (run_list calls []) ≡ negsuc 0
past_listed = refl

fancy_refines_list_example :
    (f : Fancy) × ((new >>= run calls) ≡ ok f)
    × ((idx : ℕ) → get_index idx f ≡ ok (get_list idx (run_list calls [])))
fancy_refines_list_example = fancy_refines_list calls
