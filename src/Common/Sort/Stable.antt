-- ===== src/Common/Sort/Stable.antt =====
-- `sorted` keeps the order of the entries that none of them is below.
use code_recipes.Common.{◌≡◌, refl, arith, Bool, true, false, List, [], ◌∷◌, filter}
use code_recipes.Common.Sort.{insert_sorted, sorted}

module _ {ℓ} {A : Type ℓ} (lt : A → A → Bool) (p : A → Bool)
    (tied : (a b : A) → p a ≡ true → p b ≡ true → lt b a ≡ false) where
  filter-insert_sorted :
      (x : A) (ys : List A) → filter p (insert_sorted lt x ys) ≡ filter p (x ∷ ys)
  unfolding insert_sorted
  filter-insert_sorted x [] = refl
  filter-insert_sorted x (y ∷ ys) = ground (arith, filter-insert_sorted x ys, tied x y)

  pub filter-sorted : (xs : List A) → filter p (sorted lt xs) ≡ filter p xs
  unfolding sorted
  filter-sorted [] = refl
  filter-sorted (x ∷ xs) = ground (arith, filter-insert_sorted x (sorted lt xs), filter-sorted xs)
