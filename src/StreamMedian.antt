-- ===== src/StreamMedian.antt =====
-- python/stream_median.py. A heap of heapq is its entries from the least on. A median that is no integer
-- is a half.
pub mod Moves
pub mod Balance
pub mod Correct
mod Tests
use code_recipes.Common.{
  ℕ, zero, suc, ◌+◌, ◌≡◌, Bool, true, false, leb, ◌==◌, ltb, List, [], ◌∷◌, if◌then◌else◌, length,
}
use code_recipes.Common.Int.{ℤ, pos, ltb_ℤ, neg, ◌+ℤ◌}
use code_recipes.Common.Sort.{insert_sorted}
use code_recipes.Common.Result.{Result, ok, err, ◌>>=◌}
use code_recipes.SortedArrays.{Median, whole, half}

pub data Error : Type 0 where
  index_error : Error
  out_of_fuel : Error

-- The smaller numbers are negated.
pub record MedianFinder : Type 0 where
  pub max_heap : List ℤ
  pub min_heap : List ℤ

abbrev pub sentinel : ℤ
sentinel = pos 1000000

abbrev pub new : MedianFinder
new = record { max_heap = []; min_heap = sentinel ∷ [] }

abbrev pub heap_push : ℤ → List ℤ → List ℤ
heap_push num heap = insert_sorted ltb_ℤ num heap

-- `while len(self.max_heap) - 2 >= len(self.min_heap) - 1`
unfoldable pub shrink_max : ℕ → List ℤ → List ℤ → Result Error MedianFinder
unfolding insert_sorted
shrink_max zero max_heap min_heap = err out_of_fuel
shrink_max (suc fuel) [] min_heap = ok (record { max_heap = []; min_heap = min_heap })
shrink_max (suc fuel) (m ∷ max_heap) min_heap =
    let rest = shrink_max fuel max_heap (heap_push (neg m) min_heap) in
    if leb (length min_heap + 1) (length (m ∷ max_heap))
    then rest
    else ok (record { max_heap = m ∷ max_heap; min_heap = min_heap })

-- `while len(self.min_heap) - 1 - 2 >= len(self.max_heap)`
unfoldable pub shrink_min : ℕ → List ℤ → List ℤ → Result Error MedianFinder
unfolding insert_sorted
shrink_min zero max_heap min_heap = err out_of_fuel
shrink_min (suc fuel) max_heap [] = ok (record { max_heap = max_heap; min_heap = [] })
shrink_min (suc fuel) max_heap (n ∷ min_heap) =
    let rest = shrink_min fuel (heap_push (neg n) max_heap) min_heap in
    if leb (length max_heap + 3) (length (n ∷ min_heap))
    then rest
    else ok (record { max_heap = max_heap; min_heap = n ∷ min_heap })

-- The number goes to one of the heaps: `self.min_heap[0]` raises when there is none.
unfoldable pub placed : ℤ → List ℤ → List ℤ → Result Error MedianFinder
unfolding insert_sorted
placed num max_heap [] = err index_error
placed num max_heap (n ∷ min_heap) = ok (
    if ltb_ℤ num n
    then record { max_heap = heap_push (neg num) max_heap; min_heap = n ∷ min_heap }
    else record { max_heap = max_heap; min_heap = heap_push num (n ∷ min_heap) })

unfoldable pub add_num : ℤ → MedianFinder → Result Error MedianFinder
unfolding placed shrink_max shrink_min
add_num num f = placed num f.max_heap f.min_heap >>= λ p.
    shrink_max (suc (length p.max_heap)) p.max_heap p.min_heap >>= λ q.
    shrink_min (suc (length q.min_heap)) q.max_heap q.min_heap

abbrev pub median_in : List ℤ → List ℤ → Result Error Median
median_in [] [] = err index_error
median_in [] (n ∷ min_heap) = if length min_heap == 0 then err index_error else ok (whole n)
median_in (m ∷ max_heap) [] = ok (whole (neg m))
median_in (m ∷ max_heap) (n ∷ min_heap) =
    if length (m ∷ max_heap) == length min_heap
    then ok (half (neg m +ℤ n))
    else if ltb (length min_heap) (length (m ∷ max_heap))
    then ok (whole (neg m))
    else ok (whole n)

unfoldable pub find_median : MedianFinder → Result Error Median
unfolding ◌+ℤ◌
find_median f = median_in f.max_heap f.min_heap
