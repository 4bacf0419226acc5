-- ===== src/SortedArrays/Tests.antt =====
-- Medians of small arrays.
use code_recipes.Common.{◌≡◌, refl, arith, [], ◌∷◌}
use code_recipes.Common.Int.{pos}
use code_recipes.Common.Result.{ok}
use code_recipes.SortedArrays.{Median, whole, half, find_median_sorted_arrays}
use code_recipes.SortedArrays.Ranks.{IsMedian, find_median_sorted_arrays-IsMedian}

median_of_three : find_median_sorted_arrays (pos 1 ∷ pos 3 ∷ []) (pos 2 ∷ []) ≡ ok (whole (pos 2))
unfolding find_median_sorted_arrays
median_of_three = refl

median_of_four :
    find_median_sorted_arrays (pos 1 ∷ pos 2 ∷ []) (pos 3 ∷ pos 4 ∷ []) ≡ ok (half (pos 5))
unfolding find_median_sorted_arrays
median_of_four = refl

find_median_sorted_arrays-IsMedian_example :
    (median : Median) × (find_median_sorted_arrays (pos 1 ∷ pos 3 ∷ []) (pos 2 ∷ []) ≡ ok median)
    × IsMedian (pos 1 ∷ pos 3 ∷ pos 2 ∷ []) median
find_median_sorted_arrays-IsMedian_example =
    find_median_sorted_arrays-IsMedian (pos 1 ∷ pos 3 ∷ []) (pos 2 ∷ []) ((refl, tt), (tt, tt))
      (tt, tt) (omega arith)
