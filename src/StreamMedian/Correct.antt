-- ===== src/StreamMedian/Correct.antt =====
-- `findMedian` gives the median of the numbers added so far.
use code_recipes.Common.{
  ℕ, suc, ◌+◌, ◌-◌, ◌/◌, ◌≤◌, ◌<◌, ◌≡◌, refl, ap, ◌∙◌, Bool, true, false, ltb, ◌==◌, List, [], ◌∷◌,
  arith, length, Bool-cases, inl, inr,
}
use code_recipes.Common.Int.{ℤ, ltb_ℤ, neg, ◌+ℤ◌, +ℤ_comm}
use code_recipes.Common.Sort.{NoneBelow}
use code_recipes.Common.Result.{Result, ok, ◌>>=◌}
use code_recipes.SortedArrays.{Median, whole, half}
use code_recipes.SortedArrays.Counts.{passes, count}
use code_recipes.SortedArrays.Ranks.{IsMedian, odd, even}
use code_recipes.SortedArrays.Cuts.{IsRank}
use code_recipes.StreamMedian.{MedianFinder, sentinel, new, Error, add_num, find_median, median_in}
use code_recipes.StreamMedian.Balance.{Balanced, new-Balanced, add_num-Balanced}
use code_recipes.StreamMedian.Moves.{
  Holds, neg_count, AtLeast, AtMost, Apart-tail, NoneBelow-AtMost,
}

-- No number is above the sentinel.
abbrev pub Within : List ℤ → Type 0
Within [] = Unit
Within (x ∷ xs) = (ltb_ℤ sentinel x ≡ false) × Within xs

count-all :
    (v : ℤ) (xs : List ℤ) → ltb_ℤ v sentinel ≡ false → Within xs → count false v xs ≡ length xs
count-all v [] h w = refl
count-all v (x ∷ xs) h w =
    let below : passes false v x ≡ true = ground arith in rw below (ap suc (count-all v xs h w.1))

NoneBelow-AtLeast : (n : ℤ) (ns : List ℤ) → NoneBelow ltb_ℤ n ns → AtLeast n ns
NoneBelow-AtLeast n [] h = tt
NoneBelow-AtLeast n (x ∷ ns) h = (h.0, NoneBelow-AtLeast n ns h.1)

count-AtLeast : (v : ℤ) (ns : List ℤ) → AtLeast v ns → count true v ns ≡ 0
count-AtLeast v [] a = refl
count-AtLeast v (n ∷ ns) a = rw a.0 (count-AtLeast v ns a.1)

neg_count-le : (s : Bool) (v : ℤ) (ms : List ℤ) → neg_count s v ms ≤ length ms
neg_count-le s v [] = omega arith
neg_count-le s v (m ∷ ms) = ground (arith, neg_count-le s v ms)

neg_count-AtMost : (v : ℤ) (ms : List ℤ) → AtMost v ms → neg_count false v ms ≡ length ms
neg_count-AtMost v [] a = refl
neg_count-AtMost v (m ∷ ms) a =
    let below : passes false v (neg m) ≡ true = ground arith in
    rw below (ap suc (neg_count-AtMost v ms a.1))

-- What is counted on both sides is counted among the numbers.
IsRank-of :
    (v : ℤ) (r : ℕ) (xs ms ns : List ℤ)
    → Holds xs ms ns
    → Within xs
    → r < length xs
    → neg_count true v ms + count true v ns ≤ r
    → r < neg_count false v ms + count false v ns
    → IsRank v r xs
IsRank-of v r xs ms ns h w l few many = elim (Bool-cases (ltb_ℤ v sentinel)) [
  | inl below ↦
      let out : count false v (sentinel ∷ []) ≡ 0 = ground arith in
      record { few = omega (arith, h.counts true v); many = omega (arith, h.counts false v) }
  | inr above ↦ record {
    few = omega (arith, h.counts true v);
    many = omega (arith, count-all v xs above w);
  }
]

max-IsRank :
    (xs ms ns : List ℤ) (m : ℤ)
    → Holds xs (m ∷ ms) ns
    → Within xs
    → 1 ≤ length ns
    → IsRank (neg m) (length ms) xs
max-IsRank xs ms ns m h w l =
    let itself : passes true (neg m) (neg m) ≡ false = ground arith in
    let itself' : passes false (neg m) (neg m) ≡ true = ground arith in
    IsRank-of (neg m) (length ms) xs (m ∷ ms) ns h w (omega (arith, h.sizes))
      (ground (arith, neg_count-le true (neg m) ms, count-AtLeast (neg m) ns h.apart.0))
      (ground (arith, neg_count-AtMost (neg m) ms (NoneBelow-AtMost m ms h.max_sorted.0)))

min-IsRank :
    (xs ms ns : List ℤ) (n : ℤ)
    → Holds xs ms (n ∷ ns)
    → Within xs
    → length ms < length xs
    → IsRank n (length ms) xs
min-IsRank xs ms ns n h w l =
    let itself : passes true n n ≡ false = ground arith in
    let itself' : passes false n n ≡ true = ground arith in
    IsRank-of n (length ms) xs ms (n ∷ ns) h w l
      (ground
        (arith, neg_count-le true n ms, count-AtLeast n ns (NoneBelow-AtLeast n ns h.min_sorted.0)))
      (ground (arith, neg_count-AtMost n ms (Apart-tail n ms ns h.apart).1))

IsRank-at : (v : ℤ) (r q : ℕ) (xs : List ℤ) → r ≡ q → IsRank v r xs → IsRank v q xs
IsRank-at v r q xs e h = record { few = omega (arith, h.few); many = omega (arith, h.many) }

find_median-steps : (f : MedianFinder) → find_median f ≡ median_in f.max_heap f.min_heap
unfolding find_median
find_median-steps f = refl

median_in-IsMedian :
    (xs ms ns : List ℤ)
    → Holds xs ms ns
    → Within xs
    → length ms ≤ length ns
    → length ns ≤ length ms + 2
    → 1 ≤ length xs
    → (median : Median) × (median_in ms ns ≡ ok median) × IsMedian xs median
median_in-IsMedian xs [] [] h w a b l = absurd (omega (arith, h.sizes))
median_in-IsMedian xs (m ∷ ms) [] h w a b l = absurd (omega arith)
median_in-IsMedian xs [] (n ∷ ns) h w a b l =
    let one : (length ns == 0) ≡ false = ground (arith, h.sizes) in
    (
      whole n,
      rw one refl,
      odd (omega (arith, h.sizes)) (
          IsRank-at n 0 (length xs / 2) xs (omega (arith, h.sizes))
            (min-IsRank xs [] ns n h w (omega arith))),
    )
median_in-IsMedian xs (m ∷ ms) (n ∷ ns) h w a b l =
    elim (Bool-cases (length (m ∷ ms) == length ns)) [
      | inl same ↦
          let size : length (m ∷ ms) ≡ length ns = ground arith in
          let high =
            IsRank-at n (length (m ∷ ms)) (length xs / 2) xs (omega (arith, h.sizes))
              (min-IsRank xs (m ∷ ms) ns n h w (omega (arith, h.sizes))) in
          let low =
            IsRank-at (neg m) (length ms) (length xs / 2 - 1) xs (omega (arith, h.sizes))
              (max-IsRank xs ms (n ∷ ns) m h w (omega arith)) in
          (
            half (n +ℤ neg m),
            rw same (ap (λ v. ok (half v)) (+ℤ_comm (neg m) n)),
            even (omega (arith, h.sizes)) high low,
          )
      | inr other ↦ elim (Bool-cases (ltb (length ns) (length (m ∷ ms)))) [
        | inl more ↦
            let size : length ms ≡ length ns = ground arith in
            (
              whole (neg m),
              rw (other, more) refl,
              odd (omega (arith, h.sizes)) (
                  IsRank-at (neg m) (length ms) (length xs / 2) xs (omega (arith, h.sizes))
                    (max-IsRank xs ms (n ∷ ns) m h w (omega arith))),
            )
        | inr fewer ↦
            let size : length ns ≡ suc (length (m ∷ ms)) = ground arith in
            (
              whole n,
              rw (other, fewer) refl,
              odd (omega (arith, h.sizes)) (
                  IsRank-at n (length (m ∷ ms)) (length xs / 2) xs (omega (arith, h.sizes))
                    (min-IsRank xs (m ∷ ms) ns n h w (omega (arith, h.sizes)))),
            )
      ]
    ]

-- `addNum` of each number, the last of the list first.
abbrev pub add_all : List ℤ → Result Error MedianFinder
add_all [] = ok new
add_all (x ∷ xs) = add_all xs >>= add_num x

add_all-Balanced : (xs : List ℤ) → (f : MedianFinder) × (add_all xs ≡ ok f) × Balanced xs f
add_all-Balanced [] = (new, refl, new-Balanced)
add_all-Balanced (x ∷ xs) =
    let before = add_all-Balanced xs in
    let after = add_num-Balanced x xs before.0 before.2 in
    (after.0, ap (λ r. r >>= add_num x) before.1 ∙ after.1, after.2)

-- After any numbers up to the sentinel were added, one at least, no call has raised an exception and no loop
-- has run out of its fuel, and `findMedian` answers with their median.
pub find_median-IsMedian :
    (xs : List ℤ)
    → Within xs
    → 1 ≤ length xs
    → (median : Median) × ((add_all xs >>= find_median) ≡ ok median) × IsMedian xs median
find_median-IsMedian xs w l =
    let built = add_all-Balanced xs in
    let f = built.0 in
    let b = built.2 in
    let answer = median_in-IsMedian xs f.max_heap f.min_heap b.holds w b.max_fits b.min_fits l in
    (answer.0, ap (λ r. r >>= find_median) built.1 ∙ (find_median-steps f ∙ answer.1), answer.2)
