-- ===== src/TopK/Refines/Later.antt =====
-- `remove` after its search; an entry that is not in the list is removed later.
use code_recipes.Common.{
  ℕ, ◌≡◌, refl, sym, ap, ◌∙◌, Bool, true, false, not, ◌&&◌, ◌||◌, List, arith, Option, none, some,
  Bool-cases, inl, inr,
}
use code_recipes.Common.Eq.{Eq}
use code_recipes.Common.Sort.{elem, elem-filter}
use code_recipes.Common.Bisect.{entry_before}
use code_recipes.Common.Order.{Order, Ascends, filter-Ascends}
use code_recipes.TopK.Heap.{
  TopK, remove, removed_at, refill, remove_later, add_to, discard, position, pop_n,
}
use code_recipes.TopK.Place.{
  before, shifted, position-before, shifted-discard, entry_before-elem, entry_before-in,
}
use code_recipes.TopK.Pop.{elem-cons}
use code_recipes.TopK.Refines.{Holds, in_heap}

module _ {A : Type 0} ⦃e : Eq A⦄ (lt : A → A → Bool) (o : Order lt) where
  pub remove-removed_at :
      (a : A) (s : TopK A) (pos : ℕ)
      → position lt a s.top_k ≡ pos
      → remove lt a s ≡ removed_at lt a s (shifted lt o pos s.top_k) (entry_before s.top_k pos)
  unfolding remove
  remove-removed_at a s pos p =
      ap (λ i. removed_at lt a s (shifted lt o i s.top_k) (entry_before s.top_k i)) p

  pub remove-present :
      (a : A) (s : TopK A)
      → Ascends lt s.top_k
      → elem a s.top_k ≡ true
      → remove lt a s ≡ refill lt (record s { top_k = discard lt a s.top_k }) (pop_n lt 1 s.heap)
  remove-present a s t i =
      let same : e.beq a a ≡ true = ground (arith, e.beq_iff a a) in
      remove-removed_at a s _ (position-before lt o a s.top_k t)
      ∙ rw (entry_before-elem lt o a s.top_k t i, same, shifted-discard lt o a s.top_k t i) refl

  pub removed_at-other :
      (a : A) (s : TopK A) (pos : ℕ) (kept : List A) (b : Option A)
      → entry_before s.top_k pos ≡ b
      → elem a s.top_k ≡ false
      → removed_at lt a s kept b ≡ record s { heap = remove_later lt a s.heap }
  removed_at-other a s pos kept none q n = refl
  removed_at-other a s pos kept (some b) q n =
      let there = entry_before-in lt o s.top_k pos q in
      let other : e.beq b a ≡ false = elim (Bool-cases (e.beq b a)) [
        | inl same ↦ (let one = (e.beq_iff b a).0 same in cc)
        | inr fine ↦ fine
      ] in
      rw other refl

  pub remove-absent :
      (a : A) (s : TopK A)
      → Ascends lt s.top_k
      → elem a s.top_k ≡ false
      → remove lt a s ≡ record s { heap = remove_later lt a s.heap }
  remove-absent a s t n =
      remove-removed_at a s _ (position-before lt o a s.top_k t)
      ∙ removed_at-other a s (before lt o a s.top_k) _
          (entry_before s.top_k (before lt o a s.top_k)) refl n

  pub elem-add_to : (x a : A) (r : List A) → elem x (add_to lt a r) ≡ (e.beq a x || elem x r)
  unfolding add_to
  elem-add_to x a r = elim (Bool-cases (elem a r)) [
    | inl there ↦ rw there (elim (Bool-cases (e.beq a x)) [
      | inl same ↦
          (let there' : elem x r ≡ true =
              ap (λ z. elem z r) (sym ((e.beq_iff a x).0 same)) ∙ there in
            rw (same, there') refl)
      | inr other ↦ rw other refl
    ])
    | inr new ↦ rw new (elem-cons lt o x a r)
  ]

  pub elem-discard :
      (x a : A) (xs : List A) → elem x (discard lt a xs) ≡ (elem x xs && not (e.beq a x))
  elem-discard x a xs =
      elem-filter (λ z. not (e.beq z a)) x xs ∙ ground (arith, e.beq_iff x a, e.beq_iff a x)

  pub discard-Ascends : (a : A) (xs : List A) → Ascends lt xs → Ascends lt (discard lt a xs)
  discard-Ascends a xs t = filter-Ascends lt o (λ z. not (e.beq z a)) xs t

  pub later-stale :
      (a : A) (s : TopK A) (all : List A)
      → Holds lt o s all
      → in_heap lt o s.heap a ≡ true
      → (x : A) → elem x (add_to lt a s.heap.removed) ≡ true
      → elem x s.heap.h ≡ true
  later-stale a s all h v x j = elim (Bool-cases (e.beq a x)) [
    | inl same ↦
        let here : elem a s.heap.h ≡ true = ground arith in
        ap (λ z. elem z s.heap.h) (sym ((e.beq_iff a x).0 same)) ∙ here
    | inr other ↦ h.stale x (ground (arith, elem-add_to x a s.heap.removed))
  ]

  pub later-parts :
      (a : A) (s : TopK A) (all : List A)
      → Holds lt o s all
      → in_heap lt o s.heap a ≡ true
      → elem a s.top_k ≡ false
      → (x : A)
      → elem x (discard lt a all)
        ≡ (elem x s.top_k || (elem x s.heap.h && not (elem x (add_to lt a s.heap.removed))))
  later-parts a s all h v n x = elim (Bool-cases (e.beq a x)) [
    | inl same ↦
        let out : elem x s.top_k ≡ false =
          ap (λ z. elem z s.top_k) (sym ((e.beq_iff a x).0 same)) ∙ n in
        ground (arith, elem-discard x a all, elem-add_to x a s.heap.removed)
    | inr other ↦ ground (arith, elem-discard x a all, elem-add_to x a s.heap.removed, h.parts x)
  ]

  pub later-Holds :
      (a : A) (s : TopK A) (all : List A)
      → Holds lt o s all
      → elem a all ≡ true
      → elem a s.top_k ≡ false
      → Holds lt o (record s { heap = remove_later lt a s.heap }) (discard lt a all)
  unfolding remove_later
  later-Holds a s all h i n =
      let visible : in_heap lt o s.heap a ≡ true = ground (arith, h.parts a) in
      record {
        all_ascends = discard-Ascends a all h.all_ascends;
        top_ascends = h.top_ascends;
        heap_ascends = h.heap_ascends;
        stale = later-stale a s all h visible;
        parts = later-parts a s all h visible n;
        least = λ x y j v. h.least x y j (ground (arith, elem-add_to y a s.heap.removed));
        at_most = h.at_most;
        all_if_less = λ l x. ground (arith, h.all_if_less l x, elem-add_to x a s.heap.removed);
      }
