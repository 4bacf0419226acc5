-- ===== src/VersionedGraph/Edges/Contract.antt =====
-- The edges that a graph lists for a version, against the history of its changes.
use code_recipes.Common.{
  ℕ, ◌+◌, ◌≡◌, ◌≢◌, refl, sym, subst, ◌∙◌, ap, true, false, some, List, [], arith, ltb, length,
  get_elem?, filter, Bool-cases, inl, inr,
}
use code_recipes.Common.Int.{ℤ, pos, negsuc, ltb_ℤ}
use code_recipes.Common.Eq.{int_eq}
use code_recipes.Common.Dict.{lookup}
use code_recipes.Common.Bisect.{get_elem?-some}
use code_recipes.Common.Sort.{sorted, elem, elem-sorted, elem-filter, elem-get_elem?, length-sorted}
use code_recipes.Common.Result.{ok}
use code_recipes.VersionedGraph.Graph.{Graph, Row, or_empty}
use code_recipes.VersionedGraph.Graph.History.{Change, after, versions_in, is_present}
use code_recipes.VersionedGraph.Graph.History.Versions.{Records, length-after}
use code_recipes.VersionedGraph.Graph.History.Answers.{
  lookup_in, after-filled, Records-after, live, searched_live, live-present, present_from,
}
use code_recipes.VersionedGraph.Edges.{keys, iterator, live_at, drain, list_edges}
use code_recipes.VersionedGraph.Edges.Listing.{drain-left}
use code_recipes.VersionedGraph.Edges.Keys.{
  DistinctIn, after-NoDup, keys-elem, IsAscending, IsAscending-filter, keys-IsAscending,
}

module _ (n : ℕ) (h : List Change) (i : ℕ) (v : ℤ) (row : Row)
    (at : get_elem? (after n h).graph i ≡ some row) where
  recorded : (end : ℤ) → Records n i end h (or_empty (lookup end row))
  recorded end = subst (λ o. Records n i end h (versions_in o end)) at (Records-after n i end h)

  -- The test of the iterator is the specification of the edge.
  live_at-present :
      (end : ℤ) → elem end (keys row) ≡ true → live_at v row end ≡ ok (is_present n i end v h)
  unfolding live_at
  live_at-present end key =
      let r = recorded end in
      let kept = subst (λ o. lookup_in o end ≢ some []) at (after-filled n h i end) in
      let filled : or_empty (lookup end row) ≢ [] = ground (arith, kept, keys-elem end row, key) in
      searched_live v (or_empty (lookup end row)) filled r.ascending
      ∙ ap ok (ap live (r.answers v) ∙ live-present n i end v h)

  -- An edge that is present has a key.
  present-key : (end : ℤ) → is_present n i end v h ≡ true → elem end (keys row) ≡ true
  present-key end p = elim (Bool-cases (elem end (keys row))) [
    | inl key ↦ key
    | inr no_key ↦
        let absent = (keys-elem end row).0 no_key in
        let r = subst (λ o. Records n i end h (or_empty o)) absent (recorded end) in
        absurd (cc (r.answers v, p))
  ]

  listed : List ℤ
  listed = filter (λ end. is_present n i end v h) (sorted ltb_ℤ (keys row))

  drain-listed : drain (length (keys row) + 1) row (iterator row v) ≡ ok listed
  unfolding listed
  drain-listed =
      drain-left row (sorted ltb_ℤ (keys row)) v (λ end. is_present n i end v h)
        (λ k end p.
          live_at-present end (sym (elem-sorted ltb_ℤ end (keys row)) ∙ elem-get_elem? _ k p))
        (length (keys row) + 1) 0 (omega (arith, length-sorted ltb_ℤ (keys row)))

  listed-IsAscending : IsAscending listed
  unfolding listed
  listed-IsAscending =
      IsAscending-filter _ (sorted ltb_ℤ (keys row))
        (keys-IsAscending row (subst DistinctIn at (after-NoDup n h i)))

  elem-listed : (end : ℤ) → elem end listed ≡ is_present n i end v h
  unfolding listed
  elem-listed end =
      elem-filter (λ e. is_present n i e v h) end (sorted ltb_ℤ (keys row))
      ∙ ground (arith, elem-sorted ltb_ℤ end (keys row), present-key end)

list_edges-negative : (g : Graph) (i : ℕ) (v : ℤ) → list_edges (negsuc i) v g ≡ ok []
unfolding list_edges
list_edges-negative g i v = ground arith

list_edges-outside :
    (g : Graph) (i : ℕ) (v : ℤ) → ltb i (length g.graph) ≡ false → list_edges (pos i) v g ≡ ok []
unfolding list_edges
list_edges-outside g i v h = ground arith

list_edges-inside :
    (g : Graph) (i : ℕ) (v : ℤ) (row : Row)
    → ltb i (length g.graph) ≡ true
    → get_elem? g.graph i ≡ some row
    → list_edges (pos i) v g ≡ drain (length (keys row) + 1) row (iterator row v)
unfolding list_edges
list_edges-inside g i v row lt at = ground (arith, lt, at)

-- After any history of changes the list of an iterator for version `v` comes without an exception,
-- strictly ascends, and holds exactly the ends of the edges whose last change among the first `v`
-- changes added them.
pub list_edges-after :
    (n : ℕ) (h : List Change) (start v : ℤ)
    → (es : List ℤ) × (list_edges start v (after n h) ≡ ok es)
      × IsAscending es
      × ((end : ℤ) → elem end es ≡ present_from n start end v h)
unfolding elem
list_edges-after n h (negsuc i) v = ([], list_edges-negative (after n h) i v, tt, λ end. refl)
list_edges-after n h (pos i) v = elim (Bool-cases (ltb i n)) [
  | inr out ↦ ([], list_edges-outside (after n h) i v (rw length-after out), tt, λ end. rw out)
  | inl into ↦
      let (row, at) = get_elem?-some (after n h).graph i (rw length-after (ground arith)) in
      (
        listed n h i v row at,
        list_edges-inside (after n h) i v row (rw length-after into) at
            ∙ drain-listed n h i v row at,
        listed-IsAscending n h i v row at,
        λ end. rw into (elem-listed n h i v row at end),
      )
]
