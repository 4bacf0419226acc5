-- ===== src/Common/Sort.antt =====
-- Python's `sorted`: the entries in ascending order, equal ones in the order they came in. The
-- comparison `a < b` is the argument `lt`.
pub mod Stable
use code_recipes.Common.{
  ◌∙◌, ap, zero, some, get_elem?, filter, ℕ, ◌≡◌, refl, Bool, true, false, ◌&&◌, ◌||◌, List, [],
  ◌∷◌, arith, if◌then◌else◌, length, suc, Bool-cases, inl, inr,
}
use code_recipes.Common.Eq.{Eq}
use mathlib.Core.List.{Perm}
use mathlib.Core.List.Perm

module _ {ℓ} {A : Type ℓ} (lt : A → A → Bool) where
  -- `x` goes before the entries that came later and are not less.
  unfoldable pub insert_sorted : A → List A → List A
  insert_sorted x [] = x ∷ []
  insert_sorted x (y ∷ ys) = if lt y x then y ∷ insert_sorted x ys else x ∷ y ∷ ys

  unfoldable pub sorted : List A → List A
  unfolding insert_sorted
  sorted [] = []
  sorted (x ∷ xs) = insert_sorted x (sorted xs)

  abbrev pub NoneBelow : A → List A → Type 0
  NoneBelow x [] = Unit
  NoneBelow x (y ∷ ys) = (lt y x ≡ false) × NoneBelow x ys

  abbrev pub IsSorted : List A → Type 0
  IsSorted [] = Unit
  IsSorted (x ∷ xs) = NoneBelow x xs × IsSorted xs

  insert_sorted-perm : (x : A) (ys : List A) → Perm (insert_sorted x ys) (x ∷ ys)
  unfolding insert_sorted
  insert_sorted-perm x [] = Perm.refl _
  insert_sorted-perm x (y ∷ ys) = elim (Bool-cases (lt y x)) [
    | inl less ↦ rw less (Perm.trans (Perm.cons y (insert_sorted-perm x ys)) (Perm.swap x y ys))
    | inr more ↦ rw more (Perm.refl _)
  ]

  -- The same entries, in another order.
  pub sorted-perm : (xs : List A) → Perm (sorted xs) xs
  unfolding sorted
  sorted-perm [] = Perm.refl _
  sorted-perm (x ∷ xs) =
      Perm.trans (insert_sorted-perm x (sorted xs)) (Perm.cons x (sorted-perm xs))

  module _ (asym : (a b : A) → lt a b ≡ true → lt b a ≡ false)
      (trans : (a b c : A) → lt b a ≡ false → lt c b ≡ false → lt c a ≡ false) where
    NoneBelow-trans : (x y : A) (ys : List A) → lt y x ≡ false → NoneBelow y ys → NoneBelow x ys
    NoneBelow-trans x y [] h n = tt
    NoneBelow-trans x y (z ∷ ys) h n = (trans x y z h n.0, NoneBelow-trans x y ys h n.1)

    insert_sorted-NoneBelow :
        (z x : A) (ys : List A) → lt x z ≡ false → NoneBelow z ys → NoneBelow z (insert_sorted x ys)
    unfolding insert_sorted
    insert_sorted-NoneBelow z x [] h n = (h, tt)
    insert_sorted-NoneBelow z x (y ∷ ys) h n = elim (Bool-cases (lt y x)) [
      | inl less ↦ rw less (n.0, insert_sorted-NoneBelow z x ys h n.1)
      | inr more ↦ rw more (h, n)
    ]

    pub insert_sorted-IsSorted : (x : A) (ys : List A) → IsSorted ys → IsSorted (insert_sorted x ys)
    unfolding insert_sorted
    insert_sorted-IsSorted x [] s = (tt, tt)
    insert_sorted-IsSorted x (y ∷ ys) s = elim (Bool-cases (lt y x)) [
      | inl less ↦
          rw less
            (insert_sorted-NoneBelow y x ys (asym y x less) s.0, insert_sorted-IsSorted x ys s.1)
      | inr more ↦ rw more ((more, NoneBelow-trans x y ys more s.0), s)
    ]

    -- In ascending order.
    pub sorted-IsSorted : (xs : List A) → IsSorted (sorted xs)
    unfolding sorted
    sorted-IsSorted [] = tt
    sorted-IsSorted (x ∷ xs) = insert_sorted-IsSorted x (sorted xs) (sorted-IsSorted xs)

module _ {ℓ} {A : Type ℓ} ⦃e : Eq A⦄ where
  -- `a in xs`
  unfoldable pub elem : A → List A → Bool
  elem a [] = false
  elem a (x ∷ xs) = e.beq x a || elem a xs

  pub elem-insert_sorted :
      (lt : A → A → Bool) (a x : A) (ys : List A)
      → elem a (insert_sorted lt x ys) ≡ (e.beq x a || elem a ys)
  unfolding elem insert_sorted
  elem-insert_sorted lt a x [] = refl
  elem-insert_sorted lt a x (y ∷ ys) = ground (arith, elem-insert_sorted lt a x ys)

  pub elem-sorted : (lt : A → A → Bool) (a : A) (xs : List A) → elem a (sorted lt xs) ≡ elem a xs
  unfolding elem sorted
  elem-sorted lt a [] = refl
  elem-sorted lt a (x ∷ xs) =
      ground (arith, elem-insert_sorted lt a x (sorted lt xs), elem-sorted lt a xs)

  -- No entry stands twice.
  abbrev pub Distinct : List A → Type 0
  Distinct [] = Unit
  Distinct (x ∷ xs) = (elem x xs ≡ false) × Distinct xs

  insert_sorted-Distinct :
      (lt : A → A → Bool) (x : A) (ys : List A)
      → elem x ys ≡ false
      → Distinct ys
      → Distinct (insert_sorted lt x ys)
  unfolding elem insert_sorted
  insert_sorted-Distinct lt x [] h d = (refl, tt)
  insert_sorted-Distinct lt x (y ∷ ys) h d = ground (
    arith,
    insert_sorted-Distinct lt x ys,
    elem-insert_sorted lt y x ys,
    e.beq_iff x y,
    e.beq_iff y x,
  )

  pub sorted-Distinct : (lt : A → A → Bool) (xs : List A) → Distinct xs → Distinct (sorted lt xs)
  unfolding sorted
  sorted-Distinct lt [] d = tt
  sorted-Distinct lt (x ∷ xs) d =
      insert_sorted-Distinct lt x (sorted lt xs) (elem-sorted lt x xs ∙ d.0)
        (sorted-Distinct lt xs d.1)

  pub elem-filter :
      (test : A → Bool) (a : A) (xs : List A) → elem a (filter test xs) ≡ (elem a xs && test a)
  unfolding elem
  elem-filter test a [] = refl
  elem-filter test a (x ∷ xs) = elim (Bool-cases (e.beq x a)) [
    | inl same ↦
        let one : x ≡ a = (e.beq_iff x a).0 same in
        rw same (ground (arith, elem-filter test a xs, ap test one, same))
    | inr other ↦ rw other (ground (arith, elem-filter test a xs, other))
  ]

  pub elem-get_elem? : (xs : List A) (i : ℕ) {a : A} → get_elem? xs i ≡ some a → elem a xs ≡ true
  unfolding elem
  elem-get_elem? [] i h = cc
  elem-get_elem? (x ∷ xs) zero {a} h = ground (arith, e.beq_iff x a)
  elem-get_elem? (x ∷ xs) (suc i) {a} h = ground (arith, elem-get_elem? xs i h)

module _ {ℓ} {A : Type ℓ} (lt : A → A → Bool) where
  length-insert_sorted : (x : A) (ys : List A) → length (insert_sorted lt x ys) ≡ suc (length ys)
  unfolding insert_sorted
  length-insert_sorted x [] = refl
  length-insert_sorted x (y ∷ ys) = ground (arith, length-insert_sorted x ys)

  pub length-sorted : (xs : List A) → length (sorted lt xs) ≡ length xs
  unfolding sorted
  length-sorted [] = refl
  length-sorted (x ∷ xs) = length-insert_sorted x (sorted lt xs) ∙ ap suc (length-sorted xs)
