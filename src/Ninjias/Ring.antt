-- ===== src/Ninjias/Ring.antt =====
-- The nodes in a ring: what `remove` leaves of it, and how it is built.
use code_recipes.Common.{ℕ, ◌≡◌, refl, false, ◌==◌, ◌||◌, arith, Option, some, List, [], ◌∷◌, ◌++◌}
use code_recipes.Common.Eq.{nat_eq}
use code_recipes.Common.Sort.{elem, Distinct}
use code_recipes.Ninjias.Links.{Links, set_prev, set_next, remove}

-- From `x` by `next` through the list to `y`, and back by `prev`.
abbrev pub Arc : Links → ℕ → List ℕ → ℕ → Type 0
Arc s x [] y = (s.next x ≡ some y) × (s.prev y ≡ some x)
Arc s x (z ∷ zs) y = ((s.next x ≡ some z) × (s.prev z ≡ some x)) × Arc s z zs y

pub Arc-snoc :
    (s : Links) (x : ℕ) (zs : List ℕ) (y w : ℕ)
    → Arc s x zs y
    → s.next y ≡ some w
    → s.prev w ≡ some y
    → Arc s x (zs ++ y ∷ []) w
Arc-snoc s x [] y w p n q = (p, (n, q))
Arc-snoc s x (z ∷ zs) y w p n q = (p.0, Arc-snoc s z zs y w p.1 n q)

Arc-set_next :
    (s : Links) (a : ℕ) (v : Option ℕ) (x : ℕ) (zs : List ℕ) (y : ℕ)
    → elem a (x ∷ zs) ≡ false
    → Arc s x zs y
    → Arc (set_next a v s) x zs y
unfolding elem
Arc-set_next s a v x [] y n p = ground arith
Arc-set_next s a v x (z ∷ zs) y n p = ground (arith, Arc-set_next s a v z zs y)

Arc-set_prev :
    (s : Links) (b : ℕ) (v : Option ℕ) (x : ℕ) (zs : List ℕ) (y : ℕ)
    → elem b (zs ++ y ∷ []) ≡ false
    → Arc s x zs y
    → Arc (set_prev b v s) x zs y
unfolding elem
Arc-set_prev s b v x [] y n p = ground arith
Arc-set_prev s b v x (z ∷ zs) y n p = ground (arith, Arc-set_prev s b v z zs y)

pub elem-snoc : (a : ℕ) (xs : List ℕ) (y : ℕ) → elem a (xs ++ y ∷ []) ≡ (elem a xs || (y == a))
unfolding elem
elem-snoc a [] y = ground arith
elem-snoc a (x ∷ xs) y = ground (arith, elem-snoc a xs y)

pub Distinct-snoc :
    (xs : List ℕ) (y : ℕ) → elem y xs ≡ false → Distinct xs → Distinct (xs ++ y ∷ [])
unfolding elem
Distinct-snoc [] y n d = (refl, tt)
Distinct-snoc (x ∷ xs) y n d = ground (arith, elem-snoc x xs y, Distinct-snoc xs y)

remove-linked :
    (s : Links) (p a b : ℕ)
    → s.prev a ≡ some p
    → s.next a ≡ some b
    → (remove a s).1 ≡ set_prev b (some p) (set_next p (some b) s)
remove-linked s p a b q r = rw (q, r) refl

relinked :
    (s : Links) (p b : ℕ) (rest : List ℕ)
    → elem p (b ∷ rest) ≡ false
    → elem b (rest ++ p ∷ []) ≡ false
    → Arc s b rest p
    → ((set_prev b (some p) (set_next p (some b) s)).next p ≡ some b)
      × Arc (set_prev b (some p) (set_next p (some b) s)) b (rest ++ p ∷ []) b
relinked s p b rest n m r =
    let after =
      Arc-set_prev (set_next p (some b) s) b (some p) b rest p m
        (Arc-set_next s p (some b) b rest p n r) in
    let next_p : (set_prev b (some p) (set_next p (some b) s)).next p ≡ some b = ground arith in
    let prev_b : (set_prev b (some p) (set_next p (some b) s)).prev b ≡ some p = ground arith in
    (next_p, Arc-snoc (set_prev b (some p) (set_next p (some b) s)) b rest p b after next_p prev_b)

-- The next one is removed, and the ring begins at the one after it.
pub remove-Arc :
    (s : Links) (p a b : ℕ) (rest : List ℕ)
    → elem p (b ∷ rest) ≡ false
    → elem b (rest ++ p ∷ []) ≡ false
    → Arc s p (a ∷ b ∷ rest) p
    → ((remove a s).1.next p ≡ some b) × Arc (remove a s).1 b (rest ++ p ∷ []) b
remove-Arc s p a b rest n m r =
    rw (remove-linked s p a b r.0.1 r.1.0.0) (relinked s p b rest n m r.1.1)

-- With two in the ring the first is left, next to itself.
pub remove-Path_last :
    (s : Links) (p a : ℕ)
    → Arc s p (a ∷ []) p
    → ((remove a s).1.next p ≡ some p) × Arc (remove a s).1 p [] p
remove-Path_last s p a r =
    let next_p : (set_prev p (some p) (set_next p (some p) s)).next p ≡ some p = ground arith in
    let prev_p : (set_prev p (some p) (set_next p (some p) s)).prev p ≡ some p = ground arith in
    rw (remove-linked s p a p r.0.1 r.1.0) (next_p, (next_p, prev_p))
