-- ===== src/Common/Order.antt =====
-- A strict total order as a Boolean test, and the lists that ascend in it.
use code_recipes.Common.{
  ◌≡◌, refl, Bool, true, false, List, [], ◌∷◌, arith, filter, Bool-cases, inl, inr,
}
use code_recipes.Common.Eq.{Eq}
use code_recipes.Common.Sort.{elem, insert_sorted}

pub record Order {A : Type 0} (lt : A → A → Bool) : Type 0 where
  pub irrefl : (a : A) → lt a a ≡ false
  pub trans : (a b c : A) → lt a b ≡ true → lt b c ≡ true → lt a c ≡ true
  pub total : (a b : A) → lt a b ≡ false → lt b a ≡ false → a ≡ b

module _ {A : Type 0} (lt : A → A → Bool) where
  abbrev pub Above : A → List A → Type 0
  Above x [] = Unit
  Above x (y ∷ ys) = (lt x y ≡ true) × Above x ys

  -- Each entry is less than all that follow it.
  abbrev pub Ascends : List A → Type 0
  Ascends [] = Unit
  Ascends (x ∷ xs) = Above x xs × Ascends xs

  -- All entries of the first are less than all of the second.
  abbrev pub AllBelow : List A → List A → Type 0
  AllBelow [] ys = Unit
  AllBelow (x ∷ xs) ys = Above x ys × AllBelow xs ys

  module _ ⦃e : Eq A⦄ (o : Order lt) where
    pub asym : (a b : A) → lt a b ≡ true → lt b a ≡ false
    asym a b h = elim (Bool-cases (lt b a)) [
      | inl back ↦ (let loop = o.trans a b a h back in let none = o.irrefl a in cc)
      | inr fine ↦ fine
    ]

    pub Above-elem : (x y : A) (ys : List A) → Above x ys → elem y ys ≡ true → lt x y ≡ true
    unfolding elem
    Above-elem x y [] a h = cc
    Above-elem x y (z ∷ ys) a h = ground (arith, e.beq_iff z y, Above-elem x y ys)

    pub Above-not_elem : (x : A) (ys : List A) → Above x ys → elem x ys ≡ false
    unfolding elem
    Above-not_elem x [] a = refl
    Above-not_elem x (y ∷ ys) a = ground (arith, e.beq_iff y x, o.irrefl x, Above-not_elem x ys)

    pub Above-trans : (x y : A) (ys : List A) → lt x y ≡ true → Above y ys → Above x ys
    Above-trans x y [] h a = tt
    Above-trans x y (z ∷ ys) h a = (o.trans x y z h a.0, Above-trans x y ys h a.1)

    pub Above-insert_sorted :
        (x y : A) (ys : List A) → lt x y ≡ true → Above x ys → Above x (insert_sorted lt y ys)
    unfolding insert_sorted
    Above-insert_sorted x y [] h a = (h, tt)
    Above-insert_sorted x y (z ∷ ys) h a = ground (arith, Above-insert_sorted x y ys)

    pub insert_sorted-Ascends :
        (x : A) (ys : List A) → elem x ys ≡ false → Ascends ys → Ascends (insert_sorted lt x ys)
    unfolding insert_sorted elem
    insert_sorted-Ascends x [] h a = (tt, tt)
    insert_sorted-Ascends x (y ∷ ys) h a = ground (
      arith,
      insert_sorted-Ascends x ys,
      Above-insert_sorted y x ys,
      Above-trans x y ys,
      o.total x y,
      e.beq_iff y x,
    )

    pub filter-Above :
        (test : A → Bool) (x : A) (ys : List A) → Above x ys → Above x (filter test ys)
    filter-Above test x [] a = tt
    filter-Above test x (y ∷ ys) a = ground (arith, filter-Above test x ys)

    pub filter-Ascends : (test : A → Bool) (ys : List A) → Ascends ys → Ascends (filter test ys)
    filter-Ascends test [] a = tt
    filter-Ascends test (y ∷ ys) a = ground (arith, filter-Ascends test ys, filter-Above test y ys)
