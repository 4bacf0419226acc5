-- ===== src/TopK/Place.antt =====
-- Where `bisect_right` stands in an ascending list, and what `TopK` does there.
use code_recipes.Common.{
  ℕ, zero, suc, ◌-◌, ◌≤◌, ◌<◌, ◌≡◌, refl, sym, ap, ◌∙◌, Bool, true, false, List, [], ◌∷◌, ◌++◌,
  arith, if◌then◌else◌, length, take, drop, get_elem?, some, Bool-cases, inl, inr,
}
use code_recipes.Common.Eq.{Eq}
use code_recipes.Common.Sort.{elem, insert_sorted}
use code_recipes.Common.Bisect.{entry_before, IsMonotone, bisect_right-Splits, Splits-unique}
use code_recipes.Common.Order.{Order, Above, Ascends, Above-elem, Above-not_elem, asym}
use code_recipes.TopK.Heap.{ripple, shift_left, but_last, position, discard}

ripple_lem : {A : Type 0} (a : A) (xs : List A) → ripple a xs ≡ a ∷ xs
ripple_lem a [] = refl
ripple_lem a (x ∷ xs) = ap (λ l. a ∷ l) (ripple_lem x xs)

module _ {A : Type 0} ⦃e : Eq A⦄ (lt : A → A → Bool) (o : Order lt) where
  -- How many entries stand before `a`.
  abbrev pub before : A → List A → ℕ
  before a [] = 0
  before a (x ∷ xs) = if lt a x then 0 else suc (before a xs)

  before-le : (a : A) (xs : List A) → before a xs ≤ length xs
  before-le a [] = omega arith
  before-le a (x ∷ xs) = ground (arith, before-le a xs)

  before_below :
      (a : A) (xs : List A) (i : ℕ) (b : A)
      → i < before a xs
      → get_elem? xs i ≡ some b
      → lt a b ≡ false
  before_below a [] i b h q = cc
  before_below a (x ∷ xs) zero b h q = ground arith
  before_below a (x ∷ xs) (suc i) b h q = ground (arith, before_below a xs i b)

  Above-get :
      (a : A) (xs : List A) (i : ℕ) (b : A)
      → Above lt a xs
      → get_elem? xs i ≡ some b
      → lt a b ≡ true
  Above-get a [] i b h q = cc
  Above-get a (x ∷ xs) zero b h q = ground arith
  Above-get a (x ∷ xs) (suc i) b h q = Above-get a xs i b h.1 q

  before_beyond :
      (a : A) (xs : List A) (i : ℕ) (b : A)
      → Ascends lt xs
      → before a xs ≤ i
      → get_elem? xs i ≡ some b
      → lt a b ≡ true
  before_beyond a [] i b s h q = cc
  before_beyond a (x ∷ xs) zero b s h q = ground arith
  before_beyond a (x ∷ xs) (suc i) b s h q =
      ground (arith, before_beyond a xs i b s.1, Above-get x xs i b s.0, o.trans a x b)

  Ascends-IsMonotone : (a : A) (xs : List A) → Ascends lt xs → IsMonotone (λ x. lt a x) xs
  Ascends-IsMonotone a [] s i j b c le p q h = cc
  Ascends-IsMonotone a (x ∷ xs) s zero zero b c le p q h = ground arith
  Ascends-IsMonotone a (x ∷ xs) s zero (suc j) b c le p q h =
      ground (arith, Above-get x xs j c s.0, o.trans a x c)
  Ascends-IsMonotone a (x ∷ xs) s (suc i) zero b c le p q h = absurd (omega arith)
  Ascends-IsMonotone a (x ∷ xs) s (suc i) (suc j) b c le p q h =
      Ascends-IsMonotone a xs s.1 i j b c (omega arith) p q h

  -- The search finds that number.
  pub position-before : (a : A) (xs : List A) → Ascends lt xs → position lt a xs ≡ before a xs
  position-before a xs s =
      Splits-unique (λ x. lt a x) xs (position lt a xs) (before a xs)
        (bisect_right-Splits (λ x. lt a x) xs (Ascends-IsMonotone a xs s))
        (record {
          bounded = before-le a xs;
          below = before_below a xs;
          beyond = λ i b p q. before_beyond a xs i b s p q;
        })

  -- Putting an entry at its place is inserting it in order.
  pub take-ripple-drop :
      (a : A) (xs : List A)
      → Ascends lt xs
      → elem a xs ≡ false
      → take (before a xs) xs ++ ripple a (drop (before a xs) xs) ≡ insert_sorted lt a xs
  unfolding insert_sorted elem
  take-ripple-drop a [] s h = refl
  take-ripple-drop a (x ∷ xs) s h = elim (Bool-cases (lt a x)) [
    | inl less ↦ rw (less, asym lt o a x less) (ripple_lem a (x ∷ xs))
    | inr more ↦
        let other : e.beq x a ≡ false = ground arith in
        let above : lt x a ≡ true = ground (arith, o.total a x, e.beq_iff x a) in
        let rest : elem a xs ≡ false = ground arith in
        rw (more, above) (ap (λ l. x ∷ l) (take-ripple-drop a xs s.1 rest))
  ]

  Above-before : (a : A) (xs : List A) → Above lt a xs → before a xs ≡ 0
  Above-before a [] h = refl
  Above-before a (x ∷ xs) h = rw (h.0)

  deeper :
      (x : A) (xs : List A) (n : ℕ) {b : A}
      → entry_before xs n ≡ some b
      → entry_before (x ∷ xs) (suc n) ≡ some b
  deeper x xs zero h = cc
  deeper x xs (suc n) h = h

  -- An entry that is there is the one before the place.
  pub entry_before-elem :
      (a : A) (xs : List A)
      → Ascends lt xs
      → elem a xs ≡ true
      → entry_before xs (before a xs) ≡ some a
  unfolding elem
  entry_before-elem a [] s h = cc
  entry_before-elem a (x ∷ xs) s h = elim (Bool-cases (e.beq x a)) [
    | inl same ↦
        let one : x ≡ a = (e.beq_iff x a).0 same in
        let none_less : before a xs ≡ 0 = ap (λ y. before y xs) (sym one) ∙ Above-before x xs s.0 in
        let here : lt a x ≡ false = ap (lt a) one ∙ o.irrefl a in rw (here, none_less) (ap some one)
    | inr other ↦
        let inside : elem a xs ≡ true = ground arith in
        let above : lt x a ≡ true = Above-elem lt o x a xs s.0 inside in
        let rest = entry_before-elem a xs s.1 inside in
        rw (asym lt o x a above) (deeper x xs (before a xs) rest)
  ]

  pub elem-get : (b : A) (xs : List A) (i : ℕ) → get_elem? xs i ≡ some b → elem b xs ≡ true
  unfolding elem
  elem-get b [] i h = cc
  elem-get b (x ∷ xs) zero h = ground (arith, e.beq_iff x b)
  elem-get b (x ∷ xs) (suc i) h = ground (arith, elem-get b xs i h)

  pub entry_before-in :
      (xs : List A) (n : ℕ) {b : A} → entry_before xs n ≡ some b → elem b xs ≡ true
  entry_before-in xs zero h = cc
  entry_before-in xs (suc n) {b = b} h = elem-get b xs n h

  length-shift_left : (xs : List A) → length (shift_left xs) ≡ length xs
  length-shift_left [] = refl
  length-shift_left (x ∷ []) = refl
  length-shift_left (x ∷ y ∷ ys) = ap suc (length-shift_left (y ∷ ys))

  but_last-cons : (x : A) (ys : List A) → 1 ≤ length ys → but_last (x ∷ ys) ≡ x ∷ but_last ys
  but_last-cons x [] h = absurd (omega arith)
  but_last-cons x (y ∷ ys) h = refl

  but_last-shift_left : (x : A) (xs : List A) → but_last (shift_left (x ∷ xs)) ≡ xs
  but_last-shift_left x [] = refl
  but_last-shift_left x (y ∷ []) = refl
  but_last-shift_left x (y ∷ z ∷ zs) = ap (λ l. y ∷ l) (but_last-shift_left y (z ∷ zs))

  length-shifted : (n : ℕ) (xs : List A) → length (take n xs ++ shift_left (drop n xs)) ≡ length xs
  length-shifted zero xs = length-shift_left xs
  length-shifted (suc n) [] = refl
  length-shifted (suc n) (x ∷ xs) = ap suc (length-shifted n xs)

  pub discard-none : (a : A) (xs : List A) → elem a xs ≡ false → discard lt a xs ≡ xs
  unfolding elem
  discard-none a [] h = refl
  discard-none a (x ∷ xs) h = ground (arith, discard-none a xs)

  abbrev pub shifted : ℕ → List A → List A
  shifted n xs = but_last (take (n - 1) xs ++ shift_left (drop (n - 1) xs))

  shifted-cons :
      (x : A) (xs : List A) (n : ℕ)
      → 1 ≤ n
      → 1 ≤ length xs
      → shifted (suc n) (x ∷ xs) ≡ x ∷ shifted n xs
  shifted-cons x xs n h l =
      let m : suc n - 1 ≡ suc (n - 1) = omega arith in
      ap (λ k. but_last (take k (x ∷ xs) ++ shift_left (drop k (x ∷ xs)))) m
      ∙ but_last-cons x (take (n - 1) xs ++ shift_left (drop (n - 1) xs))
          (omega (arith, length-shifted (n - 1) xs))

  entry_before-some : (xs : List A) (n : ℕ) {b : A} → entry_before xs n ≡ some b → 1 ≤ n
  entry_before-some xs zero h = cc
  entry_before-some xs (suc n) h = omega arith

  -- Closing the gap of an entry takes it out.
  pub shifted-discard :
      (a : A) (xs : List A)
      → Ascends lt xs
      → elem a xs ≡ true
      → shifted (before a xs) xs ≡ discard lt a xs
  unfolding elem
  shifted-discard a [] s h = cc
  shifted-discard a (x ∷ xs) s h = elim (Bool-cases (e.beq x a)) [
    | inl same ↦
        let one : x ≡ a = (e.beq_iff x a).0 same in
        let none_less : before a xs ≡ 0 = ap (λ y. before y xs) (sym one) ∙ Above-before x xs s.0 in
        let here : lt a x ≡ false = ap (lt a) one ∙ o.irrefl a in
        let gone : elem a xs ≡ false =
          ap (λ y. elem y xs) (sym one) ∙ Above-not_elem lt o x xs s.0 in
        rw (here, none_less, same) (but_last-shift_left x xs ∙ sym (discard-none a xs gone))
    | inr other ↦
        let inside : elem a xs ≡ true = ground arith in
        let above : lt x a ≡ true = Above-elem lt o x a xs s.0 inside in
        let some_before : 1 ≤ before a xs =
          entry_before-some xs (before a xs) (entry_before-elem a xs s.1 inside) in
        rw (asym lt o x a above, other)
          (shifted-cons x xs (before a xs) some_before (omega (arith, before-le a xs))
            ∙ ap (λ l. x ∷ l) (shifted-discard a xs s.1 inside))
  ]
