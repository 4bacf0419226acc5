-- ===== src/StreamMedian/Balance.antt =====
-- After each call the two heaps hold the numbers given, and their sizes are balanced.
use code_recipes.Common.{
  ℕ, zero, suc, ◌+◌, ◌≤◌, ◌<◌, ◌≡◌, refl, ap, ◌∙◌, leb, List, [], ◌∷◌, arith, length, Bool-cases,
  inl, inr,
}
use code_recipes.Common.Int.{ℤ, ltb_ℤ, neg}
use code_recipes.Common.Sort.{insert_sorted}
use code_recipes.Common.Result.{ok, ◌>>=◌}
use code_recipes.StreamMedian.{MedianFinder, new, shrink_max, shrink_min, placed, add_num}
use code_recipes.StreamMedian.Moves.{
  Holds, length-insert, move_right, move_left, place_left, place_right,
}

shrink_max-Holds :
    (fuel : ℕ) (xs ms ns : List ℤ)
    → Holds xs ms ns
    → length ms < fuel
    → (f : MedianFinder) × (shrink_max fuel ms ns ≡ ok f)
      × Holds xs f.max_heap f.min_heap
      × (length f.max_heap ≤ length f.min_heap)
unfolding shrink_max
shrink_max-Holds zero xs ms ns h l = absurd (omega arith)
shrink_max-Holds (suc fuel) xs [] ns h l = (_, refl, h, omega arith)
shrink_max-Holds (suc fuel) xs (m ∷ ms) ns h l =
    elim (Bool-cases (leb (length ns + 1) (length (m ∷ ms)))) [
      | inl more ↦
          let rest =
            shrink_max-Holds fuel xs ms (insert_sorted ltb_ℤ (neg m) ns) (move_right xs ms ns m h)
              (omega arith) in
          rw more rest
      | inr fine ↦ rw fine (_, refl, h, ground arith)
    ]

shrink_min-Holds :
    (fuel : ℕ) (xs ms ns : List ℤ)
    → Holds xs ms ns
    → length ns < fuel
    → length ms ≤ length ns
    → (f : MedianFinder) × (shrink_min fuel ms ns ≡ ok f)
      × Holds xs f.max_heap f.min_heap
      × (length f.max_heap ≤ length f.min_heap)
      × (length f.min_heap ≤ length f.max_heap + 2)
unfolding shrink_min
shrink_min-Holds zero xs ms ns h l b = absurd (omega arith)
shrink_min-Holds (suc fuel) xs ms [] h l b = (_, refl, h, b, omega arith)
shrink_min-Holds (suc fuel) xs ms (n ∷ ns) h l b =
    elim (Bool-cases (leb (length ms + 3) (length (n ∷ ns)))) [
      | inl more ↦
          let size = length-insert (neg n) ms in
          let wide : length ms + 3 ≤ length (n ∷ ns) = ground arith in
          let rest =
            shrink_min-Holds fuel xs (insert_sorted ltb_ℤ (neg n) ms) ns (move_left xs ms ns n h)
              (omega arith) (omega arith) in
          rw more rest
      | inr fine ↦ rw fine (_, refl, h, b, ground arith)
    ]

placed-Holds :
    (num : ℤ) (xs ms ns : List ℤ)
    → Holds xs ms ns
    → 1 ≤ length ns
    → (f : MedianFinder) × (placed num ms ns ≡ ok f) × Holds (num ∷ xs) f.max_heap f.min_heap
unfolding placed
placed-Holds num xs ms [] h l = absurd (omega arith)
placed-Holds num xs ms (n ∷ ns) h l = elim (Bool-cases (ltb_ℤ num n)) [
  | inl less ↦ rw less (_, refl, place_left xs ms ns n num h less)
  | inr more ↦ rw more (_, refl, place_right xs ms ns n num h more)
]

-- A balanced finder: the heap of the larger numbers has the sentinel, and two numbers more at most.
pub record Balanced (xs : List ℤ) (f : MedianFinder) : Type 0 where
  pub holds : Holds xs f.max_heap f.min_heap
  pub max_fits : length f.max_heap ≤ length f.min_heap
  pub min_fits : length f.min_heap ≤ length f.max_heap + 2

add_num-steps :
    (num : ℤ) (f p q r : MedianFinder)
    → placed num f.max_heap f.min_heap ≡ ok p
    → shrink_max (suc (length p.max_heap)) p.max_heap p.min_heap ≡ ok q
    → shrink_min (suc (length q.min_heap)) q.max_heap q.min_heap ≡ ok r
    → add_num num f ≡ ok r
unfolding add_num
add_num-steps num f p q r a b c =
    ap
      (λ x. x >>= λ p. shrink_max (suc (length p.max_heap)) p.max_heap p.min_heap >>= λ q.
        shrink_min (suc (length q.min_heap)) q.max_heap q.min_heap)
      a
    ∙ (ap (λ x. x >>= λ q. shrink_min (suc (length q.min_heap)) q.max_heap q.min_heap) b ∙ c)

pub new-Balanced : Balanced [] new
new-Balanced = record {
  holds = record {
    max_sorted = tt;
    min_sorted = (tt, tt);
    apart = tt;
    counts = λ s v. refl;
    sizes = omega arith;
  };
  max_fits = omega arith;
  min_fits = omega arith;
}

pub add_num-Balanced :
    (num : ℤ) (xs : List ℤ) (f : MedianFinder)
    → Balanced xs f
    → (g : MedianFinder) × (add_num num f ≡ ok g) × Balanced (num ∷ xs) g
add_num-Balanced num xs f b =
    let p =
      placed-Holds num xs f.max_heap f.min_heap b.holds
        (omega (arith, b.holds.sizes, b.max_fits)) in
    let q = shrink_max-Holds _ (num ∷ xs) _ _ p.2 (omega arith) in
    let r = shrink_min-Holds _ (num ∷ xs) _ _ q.2 (omega arith) q.3 in
    (
      r.0,
      add_num-steps num f p.0 q.0 r.0 p.1 q.1 r.1,
      record { holds = r.2; max_fits = r.3; min_fits = r.4 },
    )
