-- ===== src/SortedArrays.antt =====
-- python/median-2-sorted-arrays.py. `print` is left out. A median that is no integer is a half.
pub mod Counts
pub mod Cuts
pub mod Ranks
mod Tests
use code_recipes.Common.{
  ℕ, zero, suc, ◌+◌, ◌-◌, ◌*◌, ◌/◌, Bool, true, false, ltb, List, [], ◌∷◌, if◌then◌else◌, length,
  take, drop, get_elem?, Option, none, some,
}
use code_recipes.Common.Int.{ℤ, ltb_ℤ, ◌+ℤ◌}
use code_recipes.Common.Result.{Result, ok, err, or_raise, ◌>>=◌}

pub data Error : Type 0 where
  index_error : Error
  out_of_fuel : Error

-- The slices, where `a[ma] <= b[mb]`.
abbrev pub halved : List ℤ → List ℤ → ℕ → List ℤ × List ℤ × ℕ
halved a b r =
    let ma = length a / 2 in
    let mb = length b / 2 in
    if ltb r (ma + mb + 1) then (a, take mb b, r) else (drop (ma + 1) a, b, r - (ma + 1))

-- With `a[ma]` and `b[mb]`
abbrev pub swapped : List ℤ → List ℤ → ℕ → Option ℤ → Option ℤ → Result Error (List ℤ × List ℤ × ℕ)
swapped a b r none v = err index_error
swapped a b r (some u) none = err index_error
swapped a b r (some u) (some v) = ok (if ltb_ℤ v u then halved b a r else halved a b r)

unfoldable pub find_rank : ℕ → List ℤ → List ℤ → ℕ → Result Error ℤ
find_rank zero a b r = err out_of_fuel
find_rank (suc fuel) [] b r = or_raise (get_elem? b r) index_error
find_rank (suc fuel) (x ∷ a) [] r = or_raise (get_elem? (x ∷ a) r) index_error
find_rank (suc fuel) (x ∷ a) (y ∷ b) r =
    swapped (x ∷ a) (y ∷ b) r (get_elem? (x ∷ a) (length (x ∷ a) / 2))
      (get_elem? (y ∷ b) (length (y ∷ b) / 2))
    >>= λ s. find_rank fuel s.0 s.1 s.2

pub data Median : Type 0 where
  whole : ℤ → Median
  half : ℤ → Median

abbrev pub enough : List ℤ → List ℤ → ℕ
enough a b = suc (length a + length b)

unfoldable pub find_median_sorted_arrays : List ℤ → List ℤ → Result Error Median
unfolding find_rank ◌+ℤ◌
find_median_sorted_arrays nums1 nums2 =
    let n = length nums1 + length nums2 in
    let m = n / 2 in
    find_rank (enough nums1 nums2) nums1 nums2 m >>= λ v.
    if ltb (m * 2) n
    then ok (whole v)
    else find_rank (enough nums1 nums2) nums1 nums2 (m - 1) >>= λ prev_v. ok (half (v +ℤ prev_v))
