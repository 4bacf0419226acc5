-- ===== src/TopK/History.antt =====
-- A `TopK` that is built from a list and then changed, against the list of all its entries.
use code_recipes.Common.{
  ℕ, ◌≡◌, refl, Option, none, some, ltb, length, inl, inr, Bool-cases, ◌∙◌, Bool, true, false, List,
  [], ◌∷◌, arith, take, ap,
}
use code_recipes.Common.Eq.{Eq}
use code_recipes.Common.Sort.{elem, insert_sorted, sorted, elem-sorted, Distinct}
use code_recipes.Common.Order.{Order, Ascends, insert_sorted-Ascends}
use code_recipes.TopK.Heap.{
  MinHeap, TopK, overflow, refill, removed_at, pop_n, heap_of, discard, top_of, add, remove,
}
use code_recipes.TopK.Pop.{pop_n-Pops, elem-nil}
use code_recipes.TopK.Refines.{Holds}
use code_recipes.TopK.Refines.Add.{add-Holds}
use code_recipes.TopK.Refines.Remove.{remove-Holds}
use code_recipes.TopK.Refines.Least.{Holds-take}

pub data Change (A : Type 0) : Type 0 where
  added : A → Change A
  removed : A → Change A

module _ {A : Type 0} ⦃e : Eq A⦄ (lt : A → A → Bool) where
  abbrev pub change : Change A → TopK A → TopK A
  change (added a) s = add lt a s
  change (removed a) s = remove lt a s

  abbrev pub changes : List (Change A) → TopK A → TopK A
  changes [] s = s
  changes (c ∷ cs) s = changes cs (change c s)

  -- The same on the ascending list of all entries.
  abbrev pub change_all : Change A → List A → List A
  change_all (added a) all = insert_sorted lt a all
  change_all (removed a) all = discard lt a all

  abbrev pub changes_all : List (Change A) → List A → List A
  changes_all [] all = all
  changes_all (c ∷ cs) all = changes_all cs (change_all c all)

  -- Only new entries are added, only entries that are there are removed.
  abbrev pub CanChange : Change A → List A → Type 0
  CanChange (added a) all = elem a all ≡ false
  CanChange (removed a) all = elem a all ≡ true

  abbrev pub CanChangeAll : List (Change A) → List A → Type 0
  CanChangeAll [] all = Unit
  CanChangeAll (c ∷ cs) all = CanChange c all × CanChangeAll cs (change_all c all)

module _ {A : Type 0} ⦃e : Eq A⦄ (lt : A → A → Bool) (o : Order lt) where
  pub sorted-Ascends : (l : List A) → Distinct l → Ascends lt (sorted lt l)
  unfolding sorted
  sorted-Ascends [] d = tt
  sorted-Ascends (x ∷ l) d =
      insert_sorted-Ascends lt o x (sorted lt l) (elem-sorted lt x l ∙ d.0) (sorted-Ascends l d.1)

  pub top_of-Holds : (k : ℕ) (l : List A) → Distinct l → Holds lt o (top_of lt k l) (sorted lt l)
  unfolding top_of
  top_of-Holds k l d =
      let none : (x : A) → elem x [] ≡ true → elem x (sorted lt l) ≡ true =
        λ x i. ground (arith, elem-nil lt o x) in
      let p = pop_n-Pops lt o k (heap_of lt l) (sorted-Ascends l d) none in
      record {
        all_ascends = sorted-Ascends l d;
        top_ascends = p.res_ascends;
        heap_ascends = p.left_ascends;
        stale = p.left_stale;
        parts = λ x. ground (arith, p.parts x, elem-nil lt o x);
        least = p.least;
        at_most = p.at_most;
        all_if_less = p.all_if_less;
      }

  pub change-Holds :
      (c : Change A) (s : TopK A) (all : List A)
      → Holds lt o s all
      → CanChange lt c all
      → Holds lt o (change lt c s) (change_all lt c all)
  change-Holds (added a) s all h n = add-Holds lt o a s all h n
  change-Holds (removed a) s all h i = remove-Holds lt o a s all h i

  pub changes-Holds :
      (cs : List (Change A)) (s : TopK A) (all : List A)
      → Holds lt o s all
      → CanChangeAll lt cs all
      → Holds lt o (changes lt cs s) (changes_all lt cs all)
  changes-Holds [] s all h c = h
  changes-Holds (c ∷ cs) s all h p =
      changes-Holds cs (change lt c s) (change_all lt c all) (change-Holds c s all h p.0) p.1

  overflow-k : (k : ℕ) (heap : MinHeap A) (xs : List A) → (overflow lt k heap xs).k ≡ k
  overflow-k k heap [] = refl
  overflow-k k heap (x ∷ xs) = elim (Bool-cases (ltb k (length (x ∷ xs)))) [
    | inl long ↦ rw long refl
    | inr short ↦ rw short refl
  ]

  add-k : (a : A) (s : TopK A) → (add lt a s).k ≡ s.k
  unfolding add
  add-k a s = overflow-k s.k s.heap _

  refill-k : (s : TopK A) (popped : List A × MinHeap A) → (refill lt s popped).k ≡ s.k
  refill-k s ([], m) = refl
  refill-k s (a ∷ more, m) = add-k a (record s { heap = m })

  removed_at-k :
      (a : A) (s : TopK A) (kept : List A) (b : Option A) → (removed_at lt a s kept b).k ≡ s.k
  removed_at-k a s kept none = refl
  removed_at-k a s kept (some b) = elim (Bool-cases (e.beq b a)) [
    | inl same ↦ rw same (refill-k (record s { top_k = kept }) (pop_n lt 1 s.heap))
    | inr other ↦ rw other refl
  ]

  pub change-k : (c : Change A) (s : TopK A) → (change lt c s).k ≡ s.k
  unfolding remove
  change-k (added a) s = add-k a s
  change-k (removed a) s = removed_at-k a s _ _

  pub changes-k : (cs : List (Change A)) (s : TopK A) → (changes lt cs s).k ≡ s.k
  changes-k [] s = refl
  changes-k (c ∷ cs) s = changes-k cs (change lt c s) ∙ change-k c s

  pub top_of-k : (k : ℕ) (l : List A) → (top_of lt k l).k ≡ k
  unfolding top_of
  top_of-k k l = refl

  -- A `TopK` made from a list without repetitions and then changed by any run of `add` and `remove`, where
  -- only new entries are added and only entries that are there are removed, hands out the first `k` of the
  -- ascending list of all entries that are in it by then.
  pub top_k-changes :
      (k : ℕ) (l : List A) (cs : List (Change A))
      → Distinct l
      → CanChangeAll lt cs (sorted lt l)
      → (changes lt cs (top_of lt k l)).top_k ≡ take k (changes_all lt cs (sorted lt l))
  top_k-changes k l cs d c =
      Holds-take lt o _ _ (changes-Holds cs (top_of lt k l) (sorted lt l) (top_of-Holds k l d) c)
      ∙ ap (λ n. take n (changes_all lt cs (sorted lt l)))
          (changes-k cs (top_of lt k l) ∙ top_of-k k l)
