-- ===== src/StreamMedian/Tests.antt =====
-- The run at the end of python/stream_median.py, and a number above the sentinel.
use code_recipes.Common.{◌≡◌, refl, arith, [], ◌∷◌}
use code_recipes.Common.Int.{pos}
use code_recipes.Common.Result.{ok, ◌>>=◌}
use code_recipes.SortedArrays.{Median, whole}
use code_recipes.SortedArrays.Ranks.{IsMedian}
use code_recipes.StreamMedian.{sentinel, add_num, find_median}
use code_recipes.StreamMedian.Correct.{add_all, find_median-IsMedian}

median_of_three : (add_all (pos 40 ∷ pos 12 ∷ pos 40 ∷ []) >>= find_median) ≡ ok (whole (pos 40))
unfolding add_num find_median
median_of_three = refl

-- The only number is two million, the answer is the sentinel.
above_sentinel : (add_all (pos 2000000 ∷ []) >>= find_median) ≡ ok (whole sentinel)
unfolding add_num find_median
above_sentinel = refl

find_median-IsMedian_example :
    (median : Median) × ((add_all (pos 12 ∷ pos 40 ∷ []) >>= find_median) ≡ ok median)
    × IsMedian (pos 12 ∷ pos 40 ∷ []) median
find_median-IsMedian_example =
    find_median-IsMedian (pos 12 ∷ pos 40 ∷ []) (refl, (refl, tt)) (omega arith)
