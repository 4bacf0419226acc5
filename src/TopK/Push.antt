-- ===== src/TopK/Push.antt =====
-- What `push` and `pop` do to the entries of a heap and of a list.
use code_recipes.Common.{
  suc, ◌≡◌, refl, sym, ap, ◌∙◌, Bool, true, false, not, ◌||◌, List, [], ◌∷◌, arith, length,
  Bool-cases, inl, inr,
}
use code_recipes.Common.Eq.{Eq}
use code_recipes.Common.Sort.{elem, elem-filter, insert_sorted, elem-insert_sorted}
use code_recipes.Common.Order.{Order, Above, Ascends, Above-elem, insert_sorted-Ascends}
use code_recipes.TopK.Heap.{MinHeap, discard, pop_last, push_one}
use code_recipes.TopK.Pop.{visible, Stale, elem-cons, elem-nil, Above-all}

module _ {A : Type 0} ⦃e : Eq A⦄ (lt : A → A → Bool) (o : Order lt) where
  pub record Pushed (a : A) (m n : MinHeap A) : Type 0 where
    pub ascends : Ascends lt n.h
    pub stale : Stale lt o n.h n.removed
    pub now_visible :
        (x : A) → visible lt o n.h n.removed x ≡ (e.beq a x || visible lt o m.h m.removed x)

  -- An entry that stands removed in the heap becomes visible again.
  restored-visible :
      (a : A) (h removed : List A)
      → elem a removed ≡ true
      → elem a h ≡ true
      → (x : A) → visible lt o h (discard lt a removed) x ≡ (e.beq a x || visible lt o h removed x)
  restored-visible a h removed r i x = elim (Bool-cases (e.beq a x)) [
    | inl same ↦
        let one : a ≡ x = (e.beq_iff a x).0 same in
        let there : elem x h ≡ true = ap (λ z. elem z h) (sym one) ∙ i in
        let back : e.beq x a ≡ true = ground (arith, e.beq_iff x a) in
        ground (arith, elem-filter (λ z. not (e.beq z a)) x removed)
    | inr other ↦
        let other' : e.beq x a ≡ false = ground (arith, e.beq_iff x a, e.beq_iff a x) in
        ground (arith, elem-filter (λ z. not (e.beq z a)) x removed)
  ]

  inserted-visible :
      (a : A) (h removed : List A)
      → elem a removed ≡ false
      → (x : A)
      → visible lt o (insert_sorted lt a h) removed x ≡ (e.beq a x || visible lt o h removed x)
  inserted-visible a h removed r x = elim (Bool-cases (e.beq a x)) [
    | inl same ↦
        let out : elem x removed ≡ false =
          ap (λ z. elem z removed) (sym ((e.beq_iff a x).0 same)) ∙ r in
        ground (arith, elem-insert_sorted lt x a h)
    | inr other ↦ ground (arith, elem-insert_sorted lt x a h)
  ]

  -- `push` of an entry that is not visible makes just that entry visible.
  pub push_one-Pushed :
      (a : A) (m : MinHeap A)
      → Ascends lt m.h
      → Stale lt o m.h m.removed
      → visible lt o m.h m.removed a ≡ false
      → Pushed a m (push_one lt a m)
  unfolding push_one
  push_one-Pushed a m s st v = elim (Bool-cases (elem a m.removed)) [
    | inl r ↦ rw r (record {
      ascends = s;
      stale = λ x i. st x (ground (arith, elem-filter (λ z. not (e.beq z a)) x m.removed));
      now_visible = restored-visible a m.h m.removed r (st a r);
    })
    | inr r ↦
        let absent : elem a m.h ≡ false = ground arith in
        rw r (record {
          ascends = insert_sorted-Ascends lt o a m.h absent s;
          stale = λ x i. ground (arith, elem-insert_sorted lt x a m.h, st x);
          now_visible = inserted-visible a m.h m.removed r;
        })
  ]

  pub record Popped (xs init : List A) (last : A) : Type 0 where
    pub ascends : Ascends lt init
    pub parts : (x : A) → elem x xs ≡ (elem x init || e.beq last x)
    pub least : (x : A) → elem x init ≡ true → lt x last ≡ true
    pub one_less : length xs ≡ suc (length init)

  Popped-least :
      (x y : A) (ys init : List A) (last : A)
      → Above lt x (y ∷ ys)
      → Popped (y ∷ ys) init last
      → (z : A) → elem z (x ∷ init) ≡ true
      → lt z last ≡ true
  Popped-least x y ys init last up p z i = elim (Bool-cases (e.beq x z)) [
    | inl same ↦
        let there : elem last (y ∷ ys) ≡ true = ground (arith, p.parts last, e.beq_iff last last) in
        ap (λ w. lt w last) (sym ((e.beq_iff x z).0 same))
        ∙ Above-elem lt o x last (y ∷ ys) up there
    | inr other ↦ p.least z (ground (arith, elem-cons lt o z x init))
  ]

  -- `pop` takes the greatest entry of an ascending list.
  pub pop_last-Popped :
      (x : A) (xs : List A)
      → Ascends lt (x ∷ xs)
      → Popped (x ∷ xs) (pop_last x xs).0 (pop_last x xs).1
  pop_last-Popped x [] s = record {
    ascends = tt;
    parts = λ y. ground (arith, elem-cons lt o y x [], elem-nil lt o y);
    least = λ y i. ground (arith, elem-nil lt o y);
    one_less = refl;
  }
  pop_last-Popped x (y ∷ ys) s =
      let rest = pop_last-Popped y ys s.1 in
      record {
        ascends = (
          Above-all lt o x _ (λ z i. Above-elem lt o x z (y ∷ ys) s.0 (rest.parts z ∙ (rw i refl))),
          rest.ascends,
        );
        parts = λ z. ground (
          arith,
          elem-cons lt o z x (y ∷ ys),
          elem-cons lt o z x (pop_last y ys).0,
          rest.parts z,
        );
        least = Popped-least x y ys _ _ s.0 rest;
        one_less = ap suc rest.one_less;
      }
