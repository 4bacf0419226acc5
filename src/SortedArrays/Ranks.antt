-- ===== src/SortedArrays/Ranks.antt =====
-- `find_rank` gives an entry of the rank that it is asked for.
use code_recipes.Common.{
  ℕ, zero, suc, ◌+◌, ◌-◌, ◌*◌, ◌/◌, ◌%◌, ◌≤◌, ◌<◌, ◌≡◌, refl, sym, ap, ◌∙◌, true, false, ltb, List,
  [], ◌∷◌, ◌++◌, arith, if◌then◌else◌, length, take, get_elem?, Option, none, some, Bool-cases, inl,
  inr, length-append, append-nil, length-take, length-drop,
}
use code_recipes.Common.Int.{ℤ, ltb_ℤ, ◌+ℤ◌}
use code_recipes.Common.Sort.{IsSorted}
use code_recipes.Common.Bisect.{get_elem?-some}
use code_recipes.Common.Result.{Result, ok, ◌>>=◌}
use code_recipes.SortedArrays.{
  Error, halved, swapped, find_rank, Median, whole, half, enough, find_median_sorted_arrays,
}
use code_recipes.SortedArrays.Counts.{
  passes, count-split, count-le, length-take_le, count-take, count-drop, take-IsSorted,
  drop-IsSorted,
}
use code_recipes.SortedArrays.Cuts.{keep_low, keep_high, IsRank, IsRank-swap}

-- A smaller question with the same answer.
record Smaller (a b : List ℤ) (r : ℕ) (p : List ℤ × List ℤ × ℕ) : Type 0 where
  answers : (v : ℤ) → IsRank v p.2 (p.0 ++ p.1) → IsRank v r (a ++ b)
  first_sorted : IsSorted ltb_ℤ p.0
  second_sorted : IsSorted ltb_ℤ p.1
  in_range : p.2 < length p.0 + length p.1
  shorter : length p.0 + length p.1 < length a + length b

halved-Smaller :
    (a b : List ℤ) (r : ℕ) {u w : ℤ}
    → IsSorted ltb_ℤ a
    → IsSorted ltb_ℤ b
    → r < length a + length b
    → get_elem? a (length a / 2) ≡ some u
    → get_elem? b (length b / 2) ≡ some w
    → ltb_ℤ w u ≡ false
    → 1 ≤ length a
    → 1 ≤ length b
    → Smaller a b r (halved a b r)
halved-Smaller a b r {u = u} {w = w} sa sb l p q o na nb =
    elim (Bool-cases (ltb r (length a / 2 + length b / 2 + 1))) [
      | inl low ↦ rw low (record {
        answers =
            λ v h. keep_low v u w a b (length a / 2) (length b / 2) r sa sb p q o (ground arith) h;
        first_sorted = sa;
        second_sorted = take-IsSorted (length b / 2) b sb;
        in_range =
            (let below : r < length a / 2 + length b / 2 + 1 = ground arith in
              omega (arith, length-take (length b / 2) b));
        shorter = omega (arith, length-take (length b / 2) b);
      })
      | inr high ↦ rw high (record {
        answers =
            λ v h. keep_high v u w a b (length a / 2) (length b / 2) r sa sb p q o (ground arith) h;
        first_sorted = drop-IsSorted (length a / 2 + 1) a sa;
        second_sorted = sb;
        in_range = omega (arith, length-drop (length a / 2 + 1) a);
        shorter = omega (arith, length-drop (length a / 2 + 1) a);
      })
    ]

Smaller-swap : (a b : List ℤ) (r : ℕ) (p : List ℤ × List ℤ × ℕ) → Smaller b a r p → Smaller a b r p
Smaller-swap a b r p s = record {
  answers = λ v h. IsRank-swap v r b a (s.answers v h);
  first_sorted = s.first_sorted;
  second_sorted = s.second_sorted;
  in_range = s.in_range;
  shorter = omega (arith, s.shorter);
}

none-some : {A : Type 0} {x : A} → ◌≡◌ {A = Option A} none (some x) → ⊥
none-some h = cc

swapped-Smaller :
    (a b : List ℤ) (r : ℕ) (u w : Option ℤ)
    → IsSorted ltb_ℤ a
    → IsSorted ltb_ℤ b
    → r < length a + length b
    → get_elem? a (length a / 2) ≡ u
    → get_elem? b (length b / 2) ≡ w
    → 1 ≤ length a
    → 1 ≤ length b
    → (p : List ℤ × List ℤ × ℕ) × (swapped a b r u w ≡ ok p) × Smaller a b r p
swapped-Smaller a b r none w sa sb l p q na nb =
    let found = get_elem?-some a (length a / 2) (omega arith) in
    absurd (none-some (sym p ∙ found.1))
swapped-Smaller a b r (some u) none sa sb l p q na nb =
    let found = get_elem?-some b (length b / 2) (omega arith) in
    absurd (none-some (sym q ∙ found.1))
swapped-Smaller a b r (some u) (some w) sa sb l p q na nb = elim (Bool-cases (ltb_ℤ w u)) [
  | inl greater ↦ (
    halved b a r,
    rw greater refl,
    Smaller-swap a b r (halved b a r)
        (halved-Smaller b a r sb sa (omega arith) q p (ground arith) nb na),
  )
  | inr fine ↦ (halved a b r, rw fine refl, halved-Smaller a b r sa sb l p q fine na nb)
]

one_list :
    (r : ℕ) (xs : List ℤ)
    → IsSorted ltb_ℤ xs
    → r < length xs
    → (v : ℤ) × (get_elem? xs r ≡ some v) × IsRank v r xs
one_list r xs s l =
    let found = get_elem?-some xs r l in
    let v = found.0 in
    let itself : passes true v v ≡ false = ground arith in
    let itself' : passes false v v ≡ true = ground arith in
    (
      v,
      found.1,
      record {
        few = omega (
          arith,
          count-split true v r xs,
          count-drop true v xs r s found.1 itself,
          count-le true v (take r xs),
          length-take_le r xs,
        );
        many =
            omega
              (arith, count-split false v (suc r) xs, count-take false v xs r s found.1 itself');
      },
    )

pub find_rank-IsRank :
    (fuel : ℕ) (a b : List ℤ) (r : ℕ)
    → IsSorted ltb_ℤ a
    → IsSorted ltb_ℤ b
    → r < length a + length b
    → length a + length b < fuel
    → (v : ℤ) × (find_rank fuel a b r ≡ ok v) × IsRank v r (a ++ b)
unfolding find_rank
find_rank-IsRank zero a b r sa sb l f = absurd (omega arith)
find_rank-IsRank (suc fuel) [] b r sa sb l f =
    (let found = one_list r b sb (omega arith) in (found.0, rw found.1 refl, found.2))
find_rank-IsRank (suc fuel) (x ∷ a) [] r sa sb l f =
    let found = one_list r (x ∷ a) sa (omega arith) in
    (found.0, rw found.1 refl, rw (append-nil (x ∷ a)) found.2)
find_rank-IsRank (suc fuel) (x ∷ a) (y ∷ b) r sa sb l f =
    let step =
      swapped-Smaller (x ∷ a) (y ∷ b) r _ _ sa sb l refl refl (omega arith) (omega arith) in
    let s = step.2 in
    let rest =
      find_rank-IsRank fuel step.0.0 step.0.1 step.0.2 s.first_sorted s.second_sorted s.in_range
        (omega (arith, s.shorter)) in
    (rest.0, rw step.1 rest.1, s.answers rest.0 rest.2)

-- The one in the middle, or half the sum of the two in the middle.
pub data IsMedian (xs : List ℤ) : Median → Type 0 where
  odd : {v : ℤ} → length xs % 2 ≡ 1 → IsRank v (length xs / 2) xs → IsMedian xs (whole v)
  even :
      {v w : ℤ}
      → length xs % 2 ≡ 0
      → IsRank v (length xs / 2) xs
      → IsRank w (length xs / 2 - 1) xs
      → IsMedian xs (half (v +ℤ w))

median-odd :
    (a b : List ℤ) {v : ℤ}
    → find_rank (enough a b) a b ((length a + length b) / 2) ≡ ok v
    → ltb ((length a + length b) / 2 * 2) (length a + length b) ≡ true
    → find_median_sorted_arrays a b ≡ ok (whole v)
unfolding find_median_sorted_arrays
median-odd a b p t = ap (λ r. r >>= rest) p ∙ rw t refl
  where
    rest : ℤ → Result Error Median
    rest v =
        if ltb ((length a + length b) / 2 * 2) (length a + length b)
        then ok (whole v)
        else find_rank (enough a b) a b ((length a + length b) / 2 - 1) >>= λ w. ok (half (v +ℤ w))

median-even :
    (a b : List ℤ) {v w : ℤ}
    → find_rank (enough a b) a b ((length a + length b) / 2) ≡ ok v
    → ltb ((length a + length b) / 2 * 2) (length a + length b) ≡ false
    → find_rank (enough a b) a b ((length a + length b) / 2 - 1) ≡ ok w
    → find_median_sorted_arrays a b ≡ ok (half (v +ℤ w))
unfolding find_median_sorted_arrays
median-even a b {v = v} p t q =
    ap (λ r. r >>= rest) p ∙ rw t (ap (λ r. r >>= λ w. ok (half (v +ℤ w))) q)
  where
    rest : ℤ → Result Error Median
    rest v =
        if ltb ((length a + length b) / 2 * 2) (length a + length b)
        then ok (whole v)
        else find_rank (enough a b) a b ((length a + length b) / 2 - 1) >>= λ w. ok (half (v +ℤ w))

-- For two sorted arrays that are not both empty, the search ends within its fuel and raises nothing, and
-- the answer is the median of all entries: the one in the middle when their number is odd, half the sum of
-- the two in the middle when it is even.
pub find_median_sorted_arrays-IsMedian :
    (nums1 nums2 : List ℤ)
    → IsSorted ltb_ℤ nums1
    → IsSorted ltb_ℤ nums2
    → 1 ≤ length nums1 + length nums2
    → (median : Median) × (find_median_sorted_arrays nums1 nums2 ≡ ok median)
      × IsMedian (nums1 ++ nums2) median
find_median_sorted_arrays-IsMedian nums1 nums2 s1 s2 l =
    let n = length nums1 + length nums2 in
    let size = length-append nums1 nums2 in
    let middle =
      find_rank-IsRank (enough nums1 nums2) nums1 nums2 (n / 2) s1 s2 (omega arith) (omega arith) in
    let before =
      find_rank-IsRank (enough nums1 nums2) nums1 nums2 (n / 2 - 1) s1 s2 (omega arith)
        (omega arith) in
    let at : length (nums1 ++ nums2) / 2 ≡ n / 2 = ap (λ k. k / 2) size in
    elim (Bool-cases (ltb (n / 2 * 2) n)) [
      | inl t ↦
          let rank : IsRank middle.0 (length (nums1 ++ nums2) / 2) (nums1 ++ nums2) =
            rw at middle.2 in
          (whole middle.0, median-odd nums1 nums2 middle.1 t, odd (ground (arith, size)) rank)
      | inr t ↦
          let rank : IsRank middle.0 (length (nums1 ++ nums2) / 2) (nums1 ++ nums2) =
            rw at middle.2 in
          let rank' : IsRank before.0 (length (nums1 ++ nums2) / 2 - 1) (nums1 ++ nums2) =
            rw at before.2 in
          (
            half (middle.0 +ℤ before.0),
            median-even nums1 nums2 middle.1 t before.1,
            even (ground (arith, size)) rank rank',
          )
    ]
