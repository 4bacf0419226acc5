-- ===== src/TopK/Heap.antt =====
-- `MinHeap` and `TopK`. A heap of heapq is the list of its entries from the least on: `heappop` takes
-- the least. A set is the list of its entries.
use code_recipes.Common.{
  ℕ, zero, suc, ◌-◌, Bool, not, ltb, List, [], ◌∷◌, ◌++◌, if◌then◌else◌, length, filter, take, drop,
  Option, none, some,
}
use code_recipes.Common.Eq.{Eq}
use code_recipes.Common.Sort.{elem, insert_sorted, sorted}
use code_recipes.Common.Bisect.{bisect_right, entry_before}

pub record MinHeap (A : Type 0) : Type 0 where
  pub h : List A
  pub removed : List A

pub record TopK (A : Type 0) : Type 0 where
  pub heap : MinHeap A
  pub k : ℕ
  pub top_k : List A

-- `self.top_k[pos], e = e, self.top_k[pos]` for each place from `pos` on, and `append(e)`
abbrev pub ripple : {A : Type 0} → A → List A → List A
ripple e [] = e ∷ []
ripple e (x ∷ xs) = e ∷ ripple x xs

-- `self.top_k[pos - 1] = self.top_k[pos]` for each place from `pos` on
abbrev pub shift_left : {A : Type 0} → List A → List A
shift_left [] = []
shift_left (x ∷ []) = x ∷ []
shift_left (x ∷ y ∷ ys) = y ∷ shift_left (y ∷ ys)

-- `xs.pop()`: what is left, and the last entry.
abbrev pub pop_last : {A : Type 0} → A → List A → List A × A
pop_last x [] = ([], x)
pop_last x (y ∷ ys) = let popped = pop_last y ys in (x ∷ popped.0, popped.1)

abbrev pub but_last : {A : Type 0} → List A → List A
but_last [] = []
but_last (x ∷ xs) = (pop_last x xs).0

module _ {A : Type 0} ⦃e : Eq A⦄ (lt : A → A → Bool) where
  -- `MinHeap(l)`
  unfoldable pub heap_of : List A → MinHeap A
  unfolding sorted
  heap_of l = record { h = sorted lt l; removed = [] }

  -- `set.remove`
  abbrev pub discard : A → List A → List A
  discard a s = filter (λ x. not (e.beq x a)) s

  -- `set.add`
  unfoldable pub add_to : A → List A → List A
  unfolding elem
  add_to a s = if elem a s then s else a ∷ s

  unfoldable pub remove_later : A → MinHeap A → MinHeap A
  unfolding add_to
  remove_later a m = record m { removed = add_to a m.removed }

  -- The loop of `popN`, over the heap.
  unfoldable pub pop_loop : ℕ → List A → List A → List A × MinHeap A
  unfolding elem
  pop_loop n [] removed = ([], record { h = []; removed = removed })
  pop_loop zero (a ∷ h) removed = ([], record { h = a ∷ h; removed = removed })
  pop_loop (suc n) (a ∷ h) removed =
      let skipped = pop_loop (suc n) h (discard a removed) in
      let kept = pop_loop n h removed in if elem a removed then skipped else (a ∷ kept.0, kept.1)

  unfoldable pub pop_n : ℕ → MinHeap A → List A × MinHeap A
  unfolding pop_loop
  pop_n n m = pop_loop n m.h m.removed

  -- `push` of one entry, as `TopK` calls it
  unfoldable pub push_one : A → MinHeap A → MinHeap A
  unfolding elem insert_sorted
  push_one a m =
      if elem a m.removed
      then record m { removed = discard a m.removed }
      else record m { h = insert_sorted lt a m.h }

  unfoldable pub push : List A → MinHeap A → MinHeap A
  unfolding push_one
  push [] m = m
  push (a ∷ l) m = push l (push_one a m)

  unfoldable pub top_of : ℕ → List A → TopK A
  unfolding heap_of pop_n
  top_of k l =
      let popped = pop_n k (heap_of l) in record { heap = popped.1; k = k; top_k = popped.0 }

  abbrev pub position : A → List A → ℕ
  position a xs = bisect_right (λ x. lt a x) xs

  -- A list that is too long gives its last entry to the heap.
  abbrev pub overflow : ℕ → MinHeap A → List A → TopK A
  overflow k heap [] = record { heap = heap; k = k; top_k = [] }
  overflow k heap (x ∷ xs) =
      let popped = pop_last x xs in
      if ltb k (length (x ∷ xs))
      then record { heap = push (popped.1 ∷ []) heap; k = k; top_k = popped.0 }
      else record { heap = heap; k = k; top_k = x ∷ xs }

  unfoldable pub add : A → TopK A → TopK A
  unfolding bisect_right push
  add a s =
      let pos = position a s.top_k in
      overflow s.k s.heap (take pos s.top_k ++ ripple a (drop pos s.top_k))

  -- `if top_heap: self.add(top_heap[0])`
  abbrev pub refill : TopK A → List A × MinHeap A → TopK A
  refill s ([], m) = record s { heap = m }
  refill s (a ∷ more, m) = add a (record s { heap = m })

  -- `remove` after the search, with the list closed up and the entry before the place.
  abbrev pub removed_at : A → TopK A → List A → Option A → TopK A
  removed_at a s kept none = record s { heap = remove_later a s.heap }
  removed_at a s kept (some b) =
      if e.beq b a
      then refill (record s { top_k = kept }) (pop_n 1 s.heap)
      else record s { heap = remove_later a s.heap }

  unfoldable pub remove : A → TopK A → TopK A
  unfolding bisect_right remove_later pop_n add
  remove a s =
      let pos = position a s.top_k in
      let kept = but_last (take (pos - 1) s.top_k ++ shift_left (drop (pos - 1) s.top_k)) in
      removed_at a s kept (entry_before s.top_k pos)

  abbrev get_top_k : TopK A → List A
  get_top_k s = s.top_k
