-- ===== src/TopK/Refines/Remove.antt =====
-- `remove` takes an entry out of the list of all entries.
use code_recipes.Common.{
  suc, ◌≡◌, refl, sym, ap, ◌∙◌, Bool, true, false, ◌||◌, List, [], ◌∷◌, arith, length, Bool-cases,
  inl, inr,
}
use code_recipes.Common.Eq.{Eq}
use code_recipes.Common.Sort.{elem, insert_sorted, elem-insert_sorted}
use code_recipes.Common.Order.{Order, Ascends, insert_sorted-Ascends, Above-not_elem}
use code_recipes.TopK.Heap.{MinHeap, TopK, remove, refill, discard}
use code_recipes.TopK.Place.{discard-none}
use code_recipes.TopK.Pop.{Pops, pop_n-Pops, elem-cons, elem-nil}
use code_recipes.TopK.Refines.{Holds, Nearly, in_heap, overflow-Holds, Holds-apart}
use code_recipes.TopK.Refines.Add.{add-overflow, length-insert_sorted}
use code_recipes.TopK.Refines.Later.{
  remove-present, remove-absent, elem-discard, discard-Ascends, later-Holds,
}

module _ {A : Type 0} ⦃e : Eq A⦄ (lt : A → A → Bool) (o : Order lt) where
  length-discard :
      (a : A) (xs : List A)
      → Ascends lt xs
      → elem a xs ≡ true
      → length xs ≡ suc (length (discard lt a xs))
  length-discard a [] t i = (let out = elem-nil lt o a in cc)
  length-discard a (x ∷ xs) t i = elim (Bool-cases (e.beq x a)) [
    | inl same ↦
        let gone : elem a xs ≡ false =
          ap (λ z. elem z xs) (sym ((e.beq_iff x a).0 same)) ∙ Above-not_elem lt o x xs t.0 in
        rw (same, discard-none lt o a xs gone) refl
    | inr other ↦
        rw other (ap suc (length-discard a xs t.1 (ground (arith, elem-cons lt o a x xs))))
  ]

  closed-parts :
      (a : A) (s : TopK A) (all res : List A) (m : MinHeap A)
      → Holds lt o s all
      → elem a s.top_k ≡ true
      → Pops lt o 1 s.heap.h s.heap.removed res m
      → (x : A)
      → elem x (discard lt a all)
        ≡ ((elem x res || elem x (discard lt a s.top_k)) || in_heap lt o m x)
  closed-parts a s all res m h i p x = elim (Bool-cases (e.beq a x)) [
    | inl same ↦
        let there : elem x s.top_k ≡ true =
          ap (λ z. elem z s.top_k) (sym ((e.beq_iff a x).0 same)) ∙ i in
        ground (
          arith,
          elem-discard lt o x a all,
          elem-discard lt o x a s.top_k,
          Holds-apart lt o s all h x there,
          p.parts x,
        )
    | inr other ↦
        ground
          (arith, elem-discard lt o x a all, elem-discard lt o x a s.top_k, h.parts x, p.parts x)
  ]

  first_visible :
      (b : A) (s : TopK A) (rest : List A) (m : MinHeap A)
      → Pops lt o 1 s.heap.h s.heap.removed (b ∷ rest) m
      → in_heap lt o s.heap b ≡ true
  first_visible b s rest m p = ground (arith, p.parts b, elem-cons lt o b b rest, e.beq_iff b b)

  first_absent :
      (a b : A) (s : TopK A) (all rest : List A) (m : MinHeap A)
      → Holds lt o s all
      → Pops lt o 1 s.heap.h s.heap.removed (b ∷ rest) m
      → elem b (discard lt a s.top_k) ≡ false
  first_absent a b s all rest m h p =
      ground (
        arith,
        elem-discard lt o b a s.top_k,
        first_visible b s rest m p,
        Holds-apart lt o s all h b,
      )

  -- Before the refill, the entry of the heap included, all are less than what is left.
  refill-least :
      (a b : A) (s : TopK A) (all : List A) (m : MinHeap A)
      → Holds lt o s all
      → elem a s.top_k ≡ true
      → Pops lt o 1 s.heap.h s.heap.removed (b ∷ []) m
      → (x y : A) → elem x (insert_sorted lt b (discard lt a s.top_k)) ≡ true
      → in_heap lt o m y ≡ true
      → lt x y ≡ true
  refill-least a b s all m h i p x y j v = elim (Bool-cases (e.beq b x)) [
    | inl same ↦ p.least x y (ground (arith, elem-cons lt o x b [])) v
    | inr other ↦
        let old : elem x s.top_k ≡ true = ground (
          arith,
          elem-insert_sorted lt x b (discard lt a s.top_k),
          elem-discard lt o x a s.top_k,
        ) in
        h.least x y old (ground (arith, p.parts y))
  ]

  refill-Nearly :
      (a b : A) (s : TopK A) (all : List A) (m : MinHeap A)
      → Holds lt o s all
      → elem a s.top_k ≡ true
      → Pops lt o 1 s.heap.h s.heap.removed (b ∷ []) m
      → Nearly lt o s.k m (insert_sorted lt b (discard lt a s.top_k)) (discard lt a all)
  refill-Nearly a b s all m h i p =
      let kept = discard lt a s.top_k in
      let below = refill-least a b s all m h i p in
      let size = length-insert_sorted lt o b kept in
      let shorter = length-discard a s.top_k h.top_ascends i in
      record {
        all_ascends = discard-Ascends lt o a all h.all_ascends;
        ascends =
            insert_sorted-Ascends lt o b kept (first_absent a b s all [] m h p)
              (discard-Ascends lt o a s.top_k h.top_ascends);
        heap_ascends = p.left_ascends;
        stale = p.left_stale;
        parts = λ x. ground (
          arith,
          closed-parts a s all (b ∷ []) m h i p x,
          elem-insert_sorted lt x b kept,
          elem-cons lt o x b [],
          elem-nil lt o x,
        );
        apart = λ x j. elim (Bool-cases (in_heap lt o m x)) [
          | inl v ↦ (let loop = below x x j v in let none = o.irrefl x in cc)
          | inr fine ↦ fine
        ];
        under = λ x w y j k l v. below x y j v;
        fits = λ l x y j v. below x y j v;
        at_most = omega (arith, h.at_most);
        all_if_less = λ l x.
            (let none = h.all_if_less (omega arith) b in
              let there = first_visible b s [] m p in cc);
      }

  -- With the list closed up and the heap's least entries taken off.
  refill-Holds :
      (a : A) (s : TopK A) (all res : List A) (m : MinHeap A)
      → Holds lt o s all
      → elem a s.top_k ≡ true
      → Pops lt o 1 s.heap.h s.heap.removed res m
      → Holds lt o
          (refill lt (record s { top_k = discard lt a s.top_k }) (res, m))
          (discard lt a all)
  refill-Holds a s all [] m h i p = record {
    all_ascends = discard-Ascends lt o a all h.all_ascends;
    top_ascends = discard-Ascends lt o a s.top_k h.top_ascends;
    heap_ascends = p.left_ascends;
    stale = p.left_stale;
    parts = λ x. ground (arith, closed-parts a s all [] m h i p x, elem-nil lt o x);
    least = λ x y j v. (let none = p.all_if_less (omega arith) y in cc);
    at_most = omega (arith, length-discard a s.top_k h.top_ascends i, h.at_most);
    all_if_less = λ l x. p.all_if_less (omega arith) x;
  }
  refill-Holds a s all (b ∷ c ∷ more) m h i p = absurd (omega (arith, p.at_most))
  refill-Holds a s all (b ∷ []) m h i p =
      let absent = first_absent a b s all [] m h p in
      rw
        (add-overflow lt o b (record s { heap = m; top_k = discard lt a s.top_k })
          (discard-Ascends lt o a s.top_k h.top_ascends) absent)
        (overflow-Holds lt o s.k m (insert_sorted lt b (discard lt a s.top_k)) (discard lt a all)
          (refill-Nearly a b s all m h i p))

  pub remove-Holds :
      (a : A) (s : TopK A) (all : List A)
      → Holds lt o s all
      → elem a all ≡ true
      → Holds lt o (remove lt a s) (discard lt a all)
  remove-Holds a s all h i = elim (Bool-cases (elem a s.top_k)) [
    | inl there ↦
        rw (remove-present lt o a s h.top_ascends there)
          (refill-Holds a s all _ _ h there (pop_n-Pops lt o 1 s.heap h.heap_ascends h.stale))
    | inr out ↦ rw (remove-absent lt o a s h.top_ascends out) (later-Holds lt o a s all h i out)
  ]
