-- ===== src/Fancy/Value.antt =====
-- The shape of the trees, the value that a tree holds at a position, and `query`.
use code_recipes.Common.{
  ℕ, zero, suc, ◌+◌, ◌-◌, ◌*◌, ◌/◌, ◌%◌, ◌≤◌, ◌<◌, ◌≡◌, ◌⊎◌, refl, subst, sym, ap, List, [], ◌∷◌,
  arith, ltb, ◌==◌, if◌then◌else◌, true, Bool-cases, inl, inr,
}
use code_recipes.Common.Result.{ok}
use code_recipes.Fancy.Tree.{
  modulus, Info, Segment, leaf, node, info, fresh, construct, construct_segment_tree, query_down,
  query_up, query,
}

-- The segments of the tree split [lo, hi) down to single positions.
abbrev pub Covers : Segment → ℕ → ℕ → Type 0
Covers (leaf i) lo hi = (i.l ≡ lo) × (i.r ≡ hi) × (hi ≡ lo + 1)
Covers (node i lc rc) lo hi =
    (i.l ≡ lo)
    × (i.r ≡ hi)
    × (lo < (info lc).r)
    × ((info lc).r < hi)
    × Covers lc lo (info lc).r
    × Covers rc (info lc).r hi

-- A segment that ends past `n` has not been operated on.
abbrev pub IsFresh : ℕ → Info → Type 0
IsFresh n i = (i.r ≤ n) ⊎ ((i.a ≡ 1) × (i.b ≡ 0))

abbrev pub IsClean : ℕ → Segment → Type 0
IsClean n (leaf i) = IsFresh n i
IsClean n (node i lc rc) = IsFresh n i × IsClean n lc × IsClean n rc

-- The value at a position, by the functions of the segments above it.
unfoldable pub value : ℕ → Segment → ℕ
value pos (leaf i) = (i.a * i.c + i.b) % modulus
value pos (node i lc rc) =
    ((if ltb pos (info lc).r then value pos lc else value pos rc) * i.a + i.b) % modulus

pub Covers-bounds :
    (t : Segment) {lo hi : ℕ} → Covers t lo hi → ((info t).l ≡ lo) × ((info t).r ≡ hi) × (lo < hi)
Covers-bounds (leaf i) h = ground arith
Covers-bounds (node i lc rc) h = ground arith

pub Covers-node :
    (i : Info) (lc rc : Segment) (lo m hi : ℕ)
    → i.l ≡ lo
    → i.r ≡ hi
    → Covers lc lo m
    → Covers rc m hi
    → Covers (node i lc rc) lo hi
Covers-node i lc rc lo m hi il ir cl cr =
    let (_, r, left) = Covers-bounds lc cl in
    let (_, _, right) = Covers-bounds rc cr in
    subst (λ k. (i.l ≡ lo) × (i.r ≡ hi) × (lo < k) × (k < hi) × Covers lc lo k × Covers rc k hi)
      (sym r) (il, ir, left, right, cl, cr)

query_down-value :
    (pos : ℕ) (t : Segment) (lo hi : ℕ) (stack : List Info)
    → Covers t lo hi
    → lo ≤ pos
    → pos < hi
    → (i : Info) × (s : List Info) × (query_down pos t stack ≡ ok (i, s))
      × (query_up ((i.a * i.c + i.b) % modulus) s ≡ query_up (value pos t) stack)
unfolding query_down query_up value
query_down-value pos (leaf i) lo hi stack h p q = (i, stack, ground arith, refl)
query_down-value pos (node i lc rc) lo hi stack (il, ir, lm, mh, cl, cr) p q =
    let inner : ltb (i.l + 1) i.r ≡ true = ground arith in
    elim (Bool-cases (ltb pos (info lc).r)) [
      | inl left ↦
          let (j, s, down, up) =
            query_down-value pos lc lo (info lc).r (i ∷ stack) cl p (ground arith) in
          (j, s, rw (inner, left) down, rw left up)
      | inr right ↦
          let (j, s, down, up) =
            query_down-value pos rc (info lc).r hi (i ∷ stack) cr (ground arith) q in
          (j, s, rw (inner, right) down, rw right up)
    ]

-- `query` returns normally at every position that the tree covers, with the value there.
pub query-value :
    (pos : ℕ) (t : Segment) (lo hi : ℕ)
    → Covers t lo hi
    → lo ≤ pos
    → pos < hi
    → query pos t ≡ ok (value pos t)
unfolding query
query-value pos t lo hi h p q =
    let (i, s, down, up) = query_down-value pos t lo hi [] h p q in rw down (ap ok up)

construct-Covers :
    (fuel lo hi : ℕ)
    → hi - lo < fuel
    → lo < hi
    → (t : Segment) × (construct fuel lo hi ≡ ok t) × Covers t lo hi × ((n : ℕ) → IsClean n t)
unfolding construct
construct-Covers zero lo hi f h = absurd (omega arith)
construct-Covers (suc fuel) lo hi f h = elim (Bool-cases (lo == (lo + hi) / 2)) [
  | inl same ↦ (leaf (fresh lo hi), rw same, ground arith, λ n. inr (refl, refl))
  | inr apart ↦
      let (lc, el, cl, kl) =
        construct-Covers fuel lo ((lo + hi) / 2) (ground arith) (ground arith) in
      let (rc, er, cr, kr) =
        construct-Covers fuel ((lo + hi) / 2) hi (ground arith) (ground arith) in
      let a : ltb ((lo + hi) / 2) hi ≡ true = ground arith in
      let b : ltb lo ((lo + hi) / 2) ≡ true = ground arith in
      (
        node (fresh lo hi) lc rc,
        rw (apart, a, b, el, er),
        Covers-node (fresh lo hi) lc rc lo ((lo + hi) / 2) hi refl refl cl cr,
        λ n. (inr (refl, refl), kl n, kr n),
      )
]

-- A fresh tree splits its range, and no segment of it has been operated on.
pub construct_segment_tree-Covers :
    (lo hi : ℕ)
    → lo < hi
    → (t : Segment) × (construct_segment_tree lo hi ≡ ok t)
      × Covers t lo hi
      × ((n : ℕ) → IsClean n t)
unfolding construct_segment_tree
construct_segment_tree-Covers lo hi h = construct-Covers (hi - lo + 1) lo hi (omega arith) h
