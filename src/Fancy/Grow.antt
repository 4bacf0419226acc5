-- ===== src/Fancy/Grow.antt =====
-- `growTree`: the tree that has grown holds what it held.
use code_recipes.Common.{ℕ, ◌+◌, ◌*◌, ◌≤◌, ◌<◌, ◌≡◌, refl, sym, subst, arith, inr}
use code_recipes.Common.Result.{ok}
use code_recipes.Fancy.Tree.{Segment, leaf, node, info, fresh, construct_segment_tree, grow_tree}
use code_recipes.Fancy.Value.{
  Covers, Covers-bounds, Covers-node, IsClean, value, construct_segment_tree-Covers,
}
use code_recipes.Fancy.Update.{value-reduced}

pub IsClean-suc : (n : ℕ) (t : Segment) → IsClean n t → IsClean (n + 1) t
IsClean-suc n (leaf i) k = ground arith
IsClean-suc n (node i lc rc) k = ground (arith, IsClean-suc n lc k.1, IsClean-suc n rc k.2)

grow_tree_lem :
    (t rc : Segment)
    → (info t).l ≡ 0
    → construct_segment_tree (info t).r ((info t).r * 2) ≡ ok rc
    → grow_tree t ≡ ok (node (fresh 0 ((info t).r * 2)) t rc)
unfolding grow_tree
grow_tree_lem t rc l built = rw (l, built)

-- A tree that has grown covers twice as much, and holds the same values.
pub grow_tree-Covers :
    (t : Segment) (n r : ℕ)
    → 0 < r
    → n ≤ r
    → Covers t 0 r
    → IsClean n t
    → (t' : Segment) × (grow_tree t ≡ ok t')
      × Covers t' 0 (r * 2)
      × IsClean n t'
      × ((p : ℕ) → p < n → value p t' ≡ value p t)
unfolding grow_tree value
grow_tree-Covers t n r some_room fits c k =
    let (l, e, _) = Covers-bounds t c in
    let (rc, built, cr, kr) = construct_segment_tree-Covers r (r * 2) (omega arith) in
    (
      node (fresh 0 (r * 2)) t rc,
      subst (λ z. grow_tree t ≡ ok (node (fresh 0 (z * 2)) t rc)) e
          (grow_tree_lem t rc l
            (subst (λ z. construct_segment_tree z (z * 2) ≡ ok rc) (sym e) built)),
      Covers-node (fresh 0 (r * 2)) t rc 0 r (r * 2) refl refl c cr,
      (inr (refl, refl), k, kr n),
      λ p lt. ground (arith, e, value-reduced p t),
    )
