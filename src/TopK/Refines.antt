-- ===== src/TopK/Refines.antt =====
-- `TopK` against an ascending list of all the entries that are in it.
pub mod Add
pub mod Later
pub mod Remove
pub mod Least
use code_recipes.Common.{
  ℕ, zero, suc, ◌+◌, ◌≤◌, ◌<◌, ◌≡◌, refl, sym, ap, ◌∙◌, Bool, true, false, not, ◌&&◌, ◌||◌, ltb,
  List, [], ◌∷◌, arith, if◌then◌else◌, length, Bool-cases, inl, inr,
}
use code_recipes.Common.Eq.{Eq}
use code_recipes.Common.Sort.{elem}
use code_recipes.Common.Order.{Order, Above, Ascends}
use code_recipes.TopK.Heap.{MinHeap, TopK, pop_last, push_one, push, overflow}
use code_recipes.TopK.Pop.{visible, Stale}
use code_recipes.TopK.Push.{Pushed, push_one-Pushed, Popped, pop_last-Popped}

module _ {A : Type 0} ⦃e : Eq A⦄ (lt : A → A → Bool) (o : Order lt) where
  abbrev pub in_heap : MinHeap A → A → Bool
  in_heap m x = visible lt o m.h m.removed x

  -- The list `all` has the entries of the list and of the heap, the list has the least.
  pub record Holds (s : TopK A) (all : List A) : Type 0 where
    pub all_ascends : Ascends lt all
    pub top_ascends : Ascends lt s.top_k
    pub heap_ascends : Ascends lt s.heap.h
    pub stale : Stale lt o s.heap.h s.heap.removed
    pub parts : (x : A) → elem x all ≡ (elem x s.top_k || in_heap s.heap x)
    pub least : (x y : A) → elem x s.top_k ≡ true → in_heap s.heap y ≡ true → lt x y ≡ true
    pub at_most : length s.top_k ≤ s.k
    pub all_if_less : length s.top_k < s.k → (x : A) → in_heap s.heap x ≡ false

  -- Before the list gives what is too much: its last entry may be out of order with the heap.
  pub record Nearly (k : ℕ) (heap : MinHeap A) (xs all : List A) : Type 0 where
    pub all_ascends : Ascends lt all
    pub ascends : Ascends lt xs
    pub heap_ascends : Ascends lt heap.h
    pub stale : Stale lt o heap.h heap.removed
    pub parts : (x : A) → elem x all ≡ (elem x xs || in_heap heap x)
    pub apart : (x : A) → elem x xs ≡ true → in_heap heap x ≡ false
    pub under :
        (x w y : A)
        → elem x xs ≡ true
        → elem w xs ≡ true
        → lt x w ≡ true
        → in_heap heap y ≡ true
        → lt x y ≡ true
    pub fits : length xs ≤ k → (x y : A) → elem x xs ≡ true → in_heap heap y ≡ true → lt x y ≡ true
    pub at_most : length xs ≤ suc k
    pub all_if_less : length xs < k → (x : A) → in_heap heap x ≡ false

  kept :
      (k : ℕ) (heap : MinHeap A) (xs all : List A)
      → Nearly k heap xs all
      → length xs ≤ k
      → Holds (record { heap = heap; k = k; top_k = xs }) all
  kept k heap xs all n l = record {
    all_ascends = n.all_ascends;
    top_ascends = n.ascends;
    heap_ascends = n.heap_ascends;
    stale = n.stale;
    parts = n.parts;
    least = n.fits l;
    at_most = l;
    all_if_less = n.all_if_less;
  }

  last_least :
      (k : ℕ) (heap m : MinHeap A) (xs init all : List A) (last : A)
      → Nearly k heap xs all
      → Popped lt o xs init last
      → Pushed lt o last heap m
      → (x y : A) → elem x init ≡ true
      → in_heap m y ≡ true
      → lt x y ≡ true
  last_least k heap m xs init all last n p q x y i v = elim (Bool-cases (e.beq last y)) [
    | inl same ↦ ap (lt x) (sym ((e.beq_iff last y).0 same)) ∙ p.least x i
    | inr other ↦
        let there : elem x xs ≡ true = ground (arith, p.parts x) in
        let last_there : elem last xs ≡ true = ground (arith, p.parts last, e.beq_iff last last) in
        let before : in_heap heap y ≡ true = ground (arith, q.now_visible y) in
        n.under x last y there last_there (p.least x i) before
  ]

  given :
      (k : ℕ) (heap m : MinHeap A) (xs init all : List A) (last : A)
      → Nearly k heap xs all
      → k < length xs
      → Popped lt o xs init last
      → Pushed lt o last heap m
      → Holds (record { heap = m; k = k; top_k = init }) all
  given k heap m xs init all last n l p q = record {
    all_ascends = n.all_ascends;
    top_ascends = p.ascends;
    heap_ascends = q.ascends;
    stale = q.stale;
    parts = λ x. ground (arith, n.parts x, p.parts x, q.now_visible x);
    least = last_least k heap m xs init all last n p q;
    at_most = omega (arith, n.at_most, p.one_less);
    all_if_less = λ h x. absurd (omega (arith, p.one_less));
  }

  push-one : (a : A) (m : MinHeap A) → push lt (a ∷ []) m ≡ push_one lt a m
  unfolding push
  push-one a m = refl

  pub Holds-apart :
      (s : TopK A) (all : List A)
      → Holds s all
      → (x : A) → elem x s.top_k ≡ true
      → in_heap s.heap x ≡ false
  Holds-apart s all h x i = elim (Bool-cases (in_heap s.heap x)) [
    | inl v ↦ (let loop = h.least x x i v in let none = o.irrefl x in cc)
    | inr fine ↦ fine
  ]

  pub overflow-Holds :
      (k : ℕ) (heap : MinHeap A) (xs all : List A)
      → Nearly k heap xs all
      → Holds (overflow lt k heap xs) all
  overflow-Holds k heap [] all n = kept k heap [] all n (omega arith)
  overflow-Holds k heap (x ∷ xs) all n = elim (Bool-cases (ltb k (length (x ∷ xs)))) [
    | inl long ↦
        let p = pop_last-Popped lt o x xs n.ascends in
        let last = (pop_last x xs).1 in
        let there : elem last (x ∷ xs) ≡ true = ground (arith, p.parts last, e.beq_iff last last) in
        let q = push_one-Pushed lt o last heap n.heap_ascends n.stale (n.apart last there) in
        rw (long, push-one last heap)
          (given k heap (push_one lt last heap) (x ∷ xs) (pop_last x xs).0 all last n (ground arith)
            p q)
    | inr short ↦ rw short (kept k heap (x ∷ xs) all n (ground arith))
  ]
