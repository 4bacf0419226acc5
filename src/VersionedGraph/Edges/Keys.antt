-- ===== src/VersionedGraph/Edges/Keys.antt =====
-- The keys of a graph's rows: none stands twice, so that sorted they ascend strictly.
use code_recipes.Common.{
  ℕ, ◌+◌, ◌≡◌, subst, Bool, true, false, Option, none, some, List, [], ◌∷◌, arith, ltb, ◌==◌, ◌++◌,
  ◌<◌, ◌↔◌, length, get_elem?, set, get_elem?-set, get_elem?-replicate, filter, Bool-cases,
  Option-cases, inl, inr,
}
use code_recipes.Common.Int.{ℤ, ltb_ℤ}
use code_recipes.Common.Index.{place}
use code_recipes.Common.Eq.{int_eq, int_beq_iff}
use code_recipes.Common.Dict.{lookup, NoDup, insert-NoDup}
use code_recipes.Common.Bisect.{get_elem?-some}
use code_recipes.Common.Sort.{
  sorted, IsSorted, NoneBelow, sorted-IsSorted, elem, Distinct, sorted-Distinct,
}
use code_recipes.VersionedGraph.Search.{Version}
use code_recipes.VersionedGraph.Graph.{Graph, Row, new, or_empty, row_append, change}
use code_recipes.VersionedGraph.Graph.History.{Change, after}
use code_recipes.VersionedGraph.Graph.History.Versions.{place-lt}
use code_recipes.VersionedGraph.Edges.{keys}

-- No row has a key twice.
abbrev pub DistinctIn : Option Row → Type 0
DistinctIn none = Unit
DistinctIn (some row) = NoDup row

row_append-NoDup : (end : ℤ) (x : Version) (row : Row) → NoDup row → NoDup (row_append end x row)
unfolding row_append
row_append-NoDup end x row h =
    ground (arith, h, insert-NoDup end (or_empty (lookup end row) ++ x ∷ []) row h)

set-NoDup :
    (rows : List Row) (i j : ℕ) (row : Row)
    → j < length rows
    → NoDup row
    → DistinctIn (get_elem? rows i)
    → DistinctIn (get_elem? (set rows j row) i)
set-NoDup rows i j row lt new old = elim (Bool-cases (j == i)) [
  | inl here ↦ rw (get_elem?-set rows j i row lt, here) new
  | inr there ↦ rw (get_elem?-set rows j i row lt, there) old
]

change-NoDup :
    (c : Change) (g : Graph)
    → ((i : ℕ) → DistinctIn (get_elem? g.graph i))
    → (i : ℕ) → DistinctIn (get_elem? (change c.start c.end c.dm g).1.graph i)
unfolding change
change-NoDup c g h i = elim (Option-cases (place (length g.graph) c.start)) [
  | inl out ↦ rw (out, change) (h i)
  | inr (j, into) ↦
      let lt = place-lt (length g.graph) c.start into in
      let (row, at) = get_elem?-some g.graph j lt in
      let x : Version = record { v = g.version + 1; dm = c.dm } in
      let kept = row_append-NoDup c.end x row (subst DistinctIn at (h j)) in
      rw (into, change)
        (rw (at, change) (set-NoDup g.graph i j (row_append c.end x row) lt kept (h i)))
]

pub after-NoDup : (n : ℕ) (h : List Change) (i : ℕ) → DistinctIn (get_elem? (after n h).graph i)
unfolding after
after-NoDup n [] i = elim (Bool-cases (ltb i n)) [
  | inl into ↦ rw (get_elem?-replicate {A = Row} n i [], into) tt
  | inr out ↦ rw (get_elem?-replicate {A = Row} n i [], out) tt
]
after-NoDup n (c ∷ older) i = change-NoDup c (after n older) (after-NoDup n older) i

pub keys-elem : (e : ℤ) (row : Row) → (elem e (keys row) ≡ false) ↔ (lookup e row ≡ none)
unfolding elem lookup
keys-elem e [] = ground arith
keys-elem e ((k, vs) ∷ row) = ground (arith, keys-elem e row, int_beq_iff k e)

keys-Distinct : (row : Row) → NoDup row → Distinct (keys row)
keys-Distinct [] h = tt
keys-Distinct ((k, vs) ∷ row) h = ((keys-elem k row).1 h.0, keys-Distinct row h.1)

-- Each number is greater than the one before it.
abbrev pub AllMore : ℤ → List ℤ → Type 0
AllMore x [] = Unit
AllMore x (y ∷ ys) = (ltb_ℤ x y ≡ true) × AllMore x ys

abbrev pub IsAscending : List ℤ → Type 0
IsAscending [] = Unit
IsAscending (x ∷ xs) = AllMore x xs × IsAscending xs

AllMore-intro : (x : ℤ) (ys : List ℤ) → NoneBelow ltb_ℤ x ys → elem x ys ≡ false → AllMore x ys
unfolding elem
AllMore-intro x [] n d = tt
AllMore-intro x (y ∷ ys) n d = ground (arith, AllMore-intro x ys n.1, int_beq_iff y x)

IsAscending-intro : (xs : List ℤ) → IsSorted ltb_ℤ xs → Distinct xs → IsAscending xs
IsAscending-intro [] s d = tt
IsAscending-intro (x ∷ xs) s d = (AllMore-intro x xs s.0 d.0, IsAscending-intro xs s.1 d.1)

AllMore-filter : (f : ℤ → Bool) (x : ℤ) (ys : List ℤ) → AllMore x ys → AllMore x (filter f ys)
AllMore-filter f x [] h = tt
AllMore-filter f x (y ∷ ys) h = ground (arith, AllMore-filter f x ys h.1)

pub IsAscending-filter : (f : ℤ → Bool) (xs : List ℤ) → IsAscending xs → IsAscending (filter f xs)
IsAscending-filter f [] h = tt
IsAscending-filter f (x ∷ xs) h =
    ground (arith, IsAscending-filter f xs h.1, AllMore-filter f x xs h.0)

pub keys-IsAscending : (row : Row) → NoDup row → IsAscending (sorted ltb_ℤ (keys row))
keys-IsAscending row h =
    IsAscending-intro (sorted ltb_ℤ (keys row))
      (sorted-IsSorted ltb_ℤ (λ a b p. ground arith) (λ a b c p q. ground arith) (keys row))
      (sorted-Distinct ltb_ℤ (keys row) (keys-Distinct row h))
