-- ===== src/TopK/Refines/Add.antt =====
-- `add` inserts into the list of all entries.
use code_recipes.Common.{
  suc, ◌≡◌, refl, sym, ap, ◌∙◌, Bool, true, false, List, [], ◌∷◌, ◌++◌, arith, length, take, drop,
  Bool-cases, inl, inr,
}
use code_recipes.Common.Eq.{Eq}
use code_recipes.Common.Sort.{elem, insert_sorted, elem-insert_sorted}
use code_recipes.Common.Order.{Order, Ascends, insert_sorted-Ascends}
use code_recipes.TopK.Heap.{TopK, overflow, add, ripple}
use code_recipes.TopK.Place.{position-before, take-ripple-drop}
use code_recipes.TopK.Refines.{Holds, Nearly, in_heap, overflow-Holds, Holds-apart}

module _ {A : Type 0} ⦃e : Eq A⦄ (lt : A → A → Bool) (o : Order lt) where
  -- The search and the shifts put an entry at its place.
  pub add-overflow :
      (a : A) (s : TopK A)
      → Ascends lt s.top_k
      → elem a s.top_k ≡ false
      → add lt a s ≡ overflow lt s.k s.heap (insert_sorted lt a s.top_k)
  unfolding add
  add-overflow a s t n =
      ap (λ pos. overflow lt s.k s.heap (take pos s.top_k ++ ripple a (drop pos s.top_k)))
        (position-before lt o a s.top_k t)
      ∙ ap (overflow lt s.k s.heap) (take-ripple-drop lt o a s.top_k t n)

  pub length-insert_sorted :
      (a : A) (xs : List A) → length (insert_sorted lt a xs) ≡ suc (length xs)
  unfolding insert_sorted
  length-insert_sorted a [] = refl
  length-insert_sorted a (x ∷ xs) = ground (arith, length-insert_sorted a xs)

  -- The new entry is either no last one, so less than one of the list, or stands last.
  insert-under :
      (a : A) (s : TopK A) (all : List A)
      → Holds lt o s all
      → (x w y : A) → elem x (insert_sorted lt a s.top_k) ≡ true
      → elem w (insert_sorted lt a s.top_k) ≡ true
      → lt x w ≡ true
      → in_heap lt o s.heap y ≡ true
      → lt x y ≡ true
  insert-under a s all h x w y i j l v = elim (Bool-cases (elem x s.top_k)) [
    | inl there ↦ h.least x y there v
    | inr new ↦
        let one : a ≡ x = ground (arith, elem-insert_sorted lt x a s.top_k, e.beq_iff a x) in
        let other : e.beq a w ≡ false = elim (Bool-cases (e.beq a w)) [
          | inl same ↦ (let two = (e.beq_iff a w).0 same in let loop = o.irrefl a in cc)
          | inr fine ↦ fine
        ] in
        let old : elem w s.top_k ≡ true = ground (arith, elem-insert_sorted lt w a s.top_k) in
        o.trans x w y l (h.least w y old v)
  ]

  Nearly-apart :
      (a : A) (s : TopK A) (all : List A)
      → Holds lt o s all
      → elem a all ≡ false
      → (x : A) → elem x (insert_sorted lt a s.top_k) ≡ true
      → in_heap lt o s.heap x ≡ false
  Nearly-apart a s all h n x i = elim (Bool-cases (elem x s.top_k)) [
    | inl there ↦ Holds-apart lt o s all h x there
    | inr new ↦
        let one : a ≡ x = ground (arith, elem-insert_sorted lt x a s.top_k, e.beq_iff a x) in
        let out : elem x all ≡ false = ap (λ z. elem z all) (sym one) ∙ n in
        ground (arith, h.parts x)
  ]

  insert-Nearly :
      (a : A) (s : TopK A) (all : List A)
      → Holds lt o s all
      → elem a all ≡ false
      → Nearly lt o s.k s.heap (insert_sorted lt a s.top_k) (insert_sorted lt a all)
  insert-Nearly a s all h n =
      let absent : elem a s.top_k ≡ false = ground (arith, h.parts a) in
      let size = length-insert_sorted a s.top_k in
      record {
        all_ascends = insert_sorted-Ascends lt o a all n h.all_ascends;
        ascends = insert_sorted-Ascends lt o a s.top_k absent h.top_ascends;
        heap_ascends = h.heap_ascends;
        stale = h.stale;
        parts = λ x.
            ground
              (arith, elem-insert_sorted lt x a all, elem-insert_sorted lt x a s.top_k, h.parts x);
        apart = λ x i. Nearly-apart a s all h n x i;
        under = insert-under a s all h;
        fits = λ l x y i v. (let none = h.all_if_less (omega arith) y in cc);
        at_most = omega (arith, h.at_most);
        all_if_less = λ l x. h.all_if_less (omega arith) x;
      }

  -- An entry that was not there is inserted.
  pub add-Holds :
      (a : A) (s : TopK A) (all : List A)
      → Holds lt o s all
      → elem a all ≡ false
      → Holds lt o (add lt a s) (insert_sorted lt a all)
  add-Holds a s all h n =
      let absent : elem a s.top_k ≡ false = ground (arith, h.parts a) in
      rw (add-overflow a s h.top_ascends absent) (
        overflow-Holds lt o s.k s.heap (insert_sorted lt a s.top_k) (insert_sorted lt a all)
          (insert-Nearly a s all h n))
