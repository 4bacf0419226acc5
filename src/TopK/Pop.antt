-- ===== src/TopK/Pop.antt =====
-- What `popN` takes off a heap: its least entries that were not removed.
use code_recipes.Common.{
  ℕ, zero, suc, ◌≤◌, ◌<◌, ◌≡◌, refl, sym, ap, ◌∙◌, Bool, true, false, not, ◌&&◌, ◌||◌, List, [],
  ◌∷◌, arith, length, Bool-cases, inl, inr,
}
use code_recipes.Common.Eq.{Eq}
use code_recipes.Common.Sort.{elem, elem-filter}
use code_recipes.Common.Order.{Order, Above, Ascends, Above-elem, Above-not_elem}
use code_recipes.TopK.Heap.{MinHeap, discard, pop_loop, pop_n}

module _ {A : Type 0} ⦃e : Eq A⦄ (lt : A → A → Bool) (o : Order lt) where
  -- In the heap, and not removed.
  abbrev pub visible : List A → List A → A → Bool
  visible h removed x = elem x h && not (elem x removed)

  -- Every removed entry still stands in the heap.
  abbrev pub Stale : List A → List A → Type 0
  Stale h removed = (x : A) → elem x removed ≡ true → elem x h ≡ true

  pub record Pops (n : ℕ) (h removed res : List A) (m : MinHeap A) : Type 0 where
    pub res_ascends : Ascends lt res
    pub left_ascends : Ascends lt m.h
    pub parts : (x : A) → visible h removed x ≡ (elem x res || visible m.h m.removed x)
    pub least : (x y : A) → elem x res ≡ true → visible m.h m.removed y ≡ true → lt x y ≡ true
    pub left_stale : Stale m.h m.removed
    pub at_most : length res ≤ n
    pub all_if_less : length res < n → (x : A) → visible m.h m.removed x ≡ false

  pub Above-all :
      (x : A) (ys : List A) → ((y : A) → elem y ys ≡ true → lt x y ≡ true) → Above lt x ys
  unfolding elem
  Above-all x [] h = tt
  Above-all x (y ∷ ys) h =
      (h y (ground (arith, e.beq_iff y y)), Above-all x ys (λ z g. h z (ground arith)))

  pub elem-cons : (x a : A) (h : List A) → elem x (a ∷ h) ≡ (e.beq a x || elem x h)
  unfolding elem
  elem-cons x a h = refl

  pub elem-nil : (x : A) → elem x [] ≡ false
  unfolding elem
  elem-nil x = refl

  visible-skip :
      (a : A) (h removed : List A)
      → elem a removed ≡ true
      → elem a h ≡ false
      → (x : A) → visible (a ∷ h) removed x ≡ visible h (discard lt a removed) x
  visible-skip a h removed r n x = elim (Bool-cases (e.beq a x)) [
    | inl same ↦
        let one : a ≡ x = (e.beq_iff a x).0 same in
        let there : elem x removed ≡ true = ap (λ z. elem z removed) (sym one) ∙ r in
        let out : elem x h ≡ false = ap (λ z. elem z h) (sym one) ∙ n in
        ground (arith, elem-cons x a h)
    | inr other ↦
        let other' : e.beq x a ≡ false = ground (arith, e.beq_iff x a, e.beq_iff a x) in
        ground (arith, elem-cons x a h, elem-filter (λ z. not (e.beq z a)) x removed)
  ]

  visible-keep :
      (a : A) (h removed : List A)
      → elem a removed ≡ false
      → (x : A) → visible (a ∷ h) removed x ≡ (e.beq a x || visible h removed x)
  visible-keep a h removed r x = elim (Bool-cases (e.beq a x)) [
    | inl same ↦
        let one : a ≡ x = (e.beq_iff a x).0 same in
        let out : elem x removed ≡ false = ap (λ z. elem z removed) (sym one) ∙ r in
        ground (arith, elem-cons x a h)
    | inr other ↦ ground (arith, elem-cons x a h)
  ]

  Stale-skip : (a : A) (h removed : List A) → Stale (a ∷ h) removed → Stale h (discard lt a removed)
  unfolding elem
  Stale-skip a h removed s x i =
      ground
        (arith, elem-filter (λ z. not (e.beq z a)) x removed, s x, e.beq_iff x a, e.beq_iff a x)

  Stale-keep :
      (a : A) (h removed : List A)
      → elem a removed ≡ false
      → Stale (a ∷ h) removed
      → Stale h removed
  unfolding elem
  Stale-keep a h removed r s x i = elim (Bool-cases (e.beq a x)) [
    | inl same ↦ (let clash = sym r ∙ (ap (λ z. elem z removed) ((e.beq_iff a x).0 same) ∙ i) in cc)
    | inr other ↦ ground (arith, s x i)
  ]

  visible-elem : (h removed : List A) (x : A) → visible h removed x ≡ true → elem x h ≡ true
  visible-elem h removed x v = ground arith

  part-elem :
      (n : ℕ) (h removed res : List A) (m : MinHeap A)
      → Pops n h removed res m
      → (x : A) → elem x res ≡ true
      → elem x h ≡ true
  part-elem n h removed res m p x i = visible-elem h removed x (p.parts x ∙ (rw i refl))

  rest-elem :
      (n : ℕ) (h removed res : List A) (m : MinHeap A)
      → Pops n h removed res m
      → (x : A) → visible m.h m.removed x ≡ true
      → elem x h ≡ true
  rest-elem n h removed res m p x i = visible-elem h removed x (ground (arith, p.parts x))

  Pops-least :
      (n : ℕ) (a : A) (h removed res : List A) (m : MinHeap A)
      → Above lt a h
      → Pops n h removed res m
      → (x y : A) → elem x (a ∷ res) ≡ true
      → visible m.h m.removed y ≡ true
      → lt x y ≡ true
  Pops-least n a h removed res m up p x y i v = elim (Bool-cases (e.beq a x)) [
    | inl same ↦
        let first = Above-elem lt o a y h up (rest-elem n h removed res m p y v) in
        ap (λ z. lt z y) (sym ((e.beq_iff a x).0 same)) ∙ first
    | inr other ↦ p.least x y (ground (arith, elem-cons x a res)) v
  ]

  -- An entry kept before what the rest gives.
  Pops-keep :
      (n : ℕ) (a : A) (h removed res : List A) (m : MinHeap A)
      → Ascends lt (a ∷ h)
      → elem a removed ≡ false
      → Pops n h removed res m
      → Pops (suc n) (a ∷ h) removed (a ∷ res) m
  Pops-keep n a h removed res m s r p = record {
    res_ascends = (
      Above-all a res (λ y i. Above-elem lt o a y h s.0 (part-elem n h removed res m p y i)),
      p.res_ascends,
    );
    left_ascends = p.left_ascends;
    parts = λ x. ground (arith, visible-keep a h removed r x, p.parts x, elem-cons x a res);
    least = Pops-least n a h removed res m s.0 p;
    left_stale = p.left_stale;
    at_most = omega (arith, p.at_most);
    all_if_less = λ l x. p.all_if_less (omega arith) x;
  }

  Pops-skip :
      (n : ℕ) (a : A) (h removed res : List A) (m : MinHeap A)
      → Ascends lt (a ∷ h)
      → elem a removed ≡ true
      → Pops n h (discard lt a removed) res m
      → Pops n (a ∷ h) removed res m
  Pops-skip n a h removed res m s r p = record {
    res_ascends = p.res_ascends;
    left_ascends = p.left_ascends;
    parts = λ x. visible-skip a h removed r (Above-not_elem lt o a h s.0) x ∙ p.parts x;
    least = p.least;
    left_stale = p.left_stale;
    at_most = p.at_most;
    all_if_less = p.all_if_less;
  }

  -- The loop takes the least visible entries, and leaves the others.
  pub pop_loop-Pops :
      (n : ℕ) (h removed : List A)
      → Ascends lt h
      → Stale h removed
      → Pops n h removed (pop_loop lt n h removed).0 (pop_loop lt n h removed).1
  unfolding pop_loop
  pop_loop-Pops n [] removed s st = record {
    res_ascends = tt;
    left_ascends = tt;
    parts = λ x. refl;
    least = λ x y i v. cc;
    left_stale = st;
    at_most = omega arith;
    all_if_less = λ l x. refl;
  }
  pop_loop-Pops zero (a ∷ h) removed s st = record {
    res_ascends = tt;
    left_ascends = s;
    parts = λ x. refl;
    least = λ x y i v. cc;
    left_stale = st;
    at_most = omega arith;
    all_if_less = λ l x. absurd (omega arith);
  }
  pop_loop-Pops (suc n) (a ∷ h) removed s st = elim (Bool-cases (elem a removed)) [
    | inl stale ↦
        let rest = pop_loop-Pops (suc n) h (discard lt a removed) s.1 (Stale-skip a h removed st) in
        rw stale (Pops-skip (suc n) a h removed _ _ s stale rest)
    | inr fresh ↦
        let rest = pop_loop-Pops n h removed s.1 (Stale-keep a h removed fresh st) in
        rw fresh (Pops-keep n a h removed _ _ s fresh rest)
  ]

  pub pop_n-Pops :
      (n : ℕ) (m : MinHeap A)
      → Ascends lt m.h
      → Stale m.h m.removed
      → Pops n m.h m.removed (pop_n lt n m).0 (pop_n lt n m).1
  unfolding pop_n
  pop_n-Pops n m s st = pop_loop-Pops n m.h m.removed s st
