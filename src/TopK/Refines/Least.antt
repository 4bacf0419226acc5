-- ===== src/TopK/Refines/Least.antt =====
-- The least entries of an ascending list are those at its front.
use code_recipes.Common.{
  ℕ, zero, suc, ◌≤◌, ◌<◌, ◌≡◌, refl, sym, ap, subst, ◌∙◌, Bool, true, false, List, [], ◌∷◌, arith,
  length, take, Bool-cases, inl, inr,
}
use code_recipes.Common.Eq.{Eq}
use code_recipes.Common.Sort.{elem}
use code_recipes.Common.Order.{Order, Above, Ascends, Above-elem, Above-not_elem, asym}
use code_recipes.TopK.Heap.{TopK}
use code_recipes.TopK.Pop.{elem-cons, elem-nil}
use code_recipes.TopK.Refines.{Holds}

module _ {A : Type 0} ⦃e : Eq A⦄ (lt : A → A → Bool) (o : Order lt) where
  -- `xs` are entries of `all`, less than all the others, at most `k`, and fewer only if there are no others.
  pub record Leads (k : ℕ) (xs all : List A) : Type 0 where
    pub inside : (x : A) → elem x xs ≡ true → elem x all ≡ true
    pub least : (x y : A) → elem x xs ≡ true → elem y all ≡ true → elem y xs ≡ false → lt x y ≡ true
    pub at_most : length xs ≤ k
    pub all_if_less : length xs < k → (x : A) → elem x all ≡ true → elem x xs ≡ true

  elem-here : (x : A) (xs : List A) → elem x (x ∷ xs) ≡ true
  unfolding elem
  elem-here x xs = ground (arith, e.beq_iff x x)

  Leads-head :
      (k : ℕ) (x y : A) (xs all : List A)
      → Ascends lt (x ∷ xs)
      → Ascends lt (y ∷ all)
      → Leads k (x ∷ xs) (y ∷ all)
      → x ≡ y
  Leads-head k x y xs all s t l = elim (Bool-cases (e.beq x y)) [
    | inl same ↦ (e.beq_iff x y).0 same
    | inr other ↦
        let other' : e.beq y x ≡ false = ground (arith, e.beq_iff x y, e.beq_iff y x) in
        let inside : elem x all ≡ true =
          ground (arith, l.inside x (elem-here x xs), elem-cons lt o x y all) in
        let up : lt y x ≡ true = Above-elem lt o y x all t.0 inside in
        let down : lt x y ≡ true = elim (Bool-cases (elem y xs)) [
          | inl there ↦ Above-elem lt o x y xs s.0 there
          | inr out ↦
              l.least x y (elem-here x xs) (elem-here y all) (ground (arith, elem-cons lt o y x xs))
        ] in
        let clash = asym lt o x y down in cc
  ]

  Above-apart : (x z : A) (xs : List A) → Above lt x xs → elem z xs ≡ true → e.beq x z ≡ false
  Above-apart x z xs s i = elim (Bool-cases (e.beq x z)) [
    | inl same ↦
        let out = ap (λ w. elem w xs) (sym ((e.beq_iff x z).0 same)) ∙ Above-not_elem lt o x xs s in
        cc
    | inr other ↦ other
  ]

  Leads-tail :
      (k : ℕ) (x : A) (xs all : List A)
      → Above lt x xs
      → Above lt x all
      → Leads (suc k) (x ∷ xs) (x ∷ all)
      → Leads k xs all
  Leads-tail k x xs all s t l = record {
    inside = λ z i.
        let other = Above-apart x z xs s i in
        ground (arith, l.inside z, elem-cons lt o z x xs, elem-cons lt o z x all);
    least = λ z y i j n.
        let other = Above-apart x y all t j in
        ground (
          arith,
          l.least z y,
          elem-cons lt o z x xs,
          elem-cons lt o y x all,
          elem-cons lt o y x xs,
        );
    at_most = omega (arith, l.at_most);
    all_if_less = λ h z j.
        let other = Above-apart x z all t j in
        let there : elem z (x ∷ all) ≡ true = ground (arith, elem-cons lt o z x all) in
        let found = l.all_if_less (omega arith) z there in ground (arith, elem-cons lt o z x xs);
  }

  -- There is one such list.
  pub Leads-take :
      (k : ℕ) (xs all : List A) → Ascends lt xs → Ascends lt all → Leads k xs all → xs ≡ take k all
  Leads-take zero [] all s t l = refl
  Leads-take zero (x ∷ xs) all s t l = absurd (omega (arith, l.at_most))
  Leads-take (suc k) [] [] s t l = refl
  Leads-take (suc k) [] (y ∷ all) s t l =
      (let there = l.all_if_less (omega arith) y (elem-here y all) in
        let out = elem-nil lt o y in cc)
  Leads-take (suc k) (x ∷ xs) [] s t l =
      (let there = l.inside x (elem-here x xs) in let out = elem-nil lt o x in cc)
  Leads-take (suc k) (x ∷ xs) (y ∷ all) s t l =
      let one = Leads-head (suc k) x y xs all s t l in
      let l' : Leads (suc k) (x ∷ xs) (x ∷ all) =
        subst (λ w. Leads (suc k) (x ∷ xs) (w ∷ all)) (sym one) l in
      let up : Above lt x all = subst (λ w. Above lt w all) (sym one) t.0 in
      let rest = Leads-take k xs all s.1 t.1 (Leads-tail k x xs all s.0 up l') in
      rw (one, rest) refl

  -- What the class hands out is the front of the list of all entries.
  pub Holds-take : (s : TopK A) (all : List A) → Holds lt o s all → s.top_k ≡ take s.k all
  Holds-take s all h = Leads-take s.k s.top_k all h.top_ascends h.all_ascends (record {
    inside = λ x i. ground (arith, h.parts x);
    least = λ x y i j n. h.least x y i (ground (arith, h.parts y));
    at_most = h.at_most;
    all_if_less = λ l x i. ground (arith, h.parts x, h.all_if_less l x);
  })
