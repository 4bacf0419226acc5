-- ===== src/VersionedGraph/Graph/History/Answers.antt =====
-- `has_edge` against the history of the changes.
use code_recipes.Common.{
  ℕ, zero, suc, ◌+◌, ◌≤◌, ◌<◌, ◌≡◌, ◌≢◌, refl, subst, ◌∙◌, ap, Bool, true, false, not, Option, none,
  some, List, [], ◌∷◌, ◌++◌, arith, ◌-◌, ltb, ◌&&◌, if◌then◌else◌, length, get_elem?, set,
  get_elem?-set, get_elem?-replicate, Option-cases, Bool-cases, inl, inr,
}
use code_recipes.Common.Int.{ℤ, pos, negsuc}
use code_recipes.Common.Index.{place}
use code_recipes.Common.Eq.{int_eq}
use code_recipes.Common.Dict.{lookup, lookup-insert}
use code_recipes.Common.Bisect.{get_elem?-some, last_kept, entry_before, entry_before-Splits}
use code_recipes.Common.Result.{ok, ◌>>=◌}
use code_recipes.VersionedGraph.Search.{Version, newer, search_for_version}
use code_recipes.VersionedGraph.Search.Correct.{Ascending, search_for_version_lem}
use code_recipes.VersionedGraph.Graph.{
  Graph, Row, new, or_empty, row_append, change, has_edge, edge_in_row, is_live,
}
use code_recipes.VersionedGraph.Graph.History.{
  Change, after, hits, last_change, is_present, versions_of, versions_in,
}
use code_recipes.VersionedGraph.Graph.History.Versions.{
  AllAbove, IsAscending, Records, Records-grown, Records-missed, versions_of-change, length-after,
  version-after, marker, place-lt,
}

Records-change :
    (n i : ℕ) (end : ℤ) (c : Change) (older : List Change) (g : Graph)
    → length g.graph ≡ n
    → g.version ≡ length older
    → Records n i end older (versions_of g i end)
    → Records n i end (c ∷ older) (versions_of (change c.start c.end c.dm g).1 i end)
Records-change n i end c older g size counted r =
    rw (versions_of-change c g i end, size, counted)
      (elim (Bool-cases (hits n i end c)) [
        | inl hit ↦ rw hit (Records-grown n i end c older _ r hit)
        | inr miss ↦ rw miss (Records-missed n i end c older _ r miss)
      ])

-- The graph records every history.
pub Records-after :
    (n i : ℕ) (end : ℤ) (h : List Change) → Records n i end h (versions_of (after n h) i end)
unfolding after lookup
Records-after n i end [] =
    let none_yet : versions_of (new n) i end ≡ [] =
      ground (arith, get_elem?-replicate {A = Row} n i []) in
    rw none_yet (record { below = tt; ascending = tt; answers = λ t. refl })
Records-after n i end (c ∷ older) =
    Records-change n i end c older (after n older) (length-after n older) (version-after n older)
      (Records-after n i end older)

-- No edge is kept with an empty list.
abbrev pub lookup_in : Option Row → ℤ → Option (List Version)
lookup_in none end = none
lookup_in (some row) end = lookup end row

append-ne-nil : (vs : List Version) (x : Version) → vs ++ x ∷ [] ≢ []
append-ne-nil [] x = ground arith
append-ne-nil (y ∷ vs) x = ground arith

row_append-filled :
    (end e : ℤ) (x : Version) (row : Row)
    → lookup e row ≢ some []
    → lookup e (row_append end x row) ≢ some []
unfolding row_append
row_append-filled end e x row h = ground (
  arith,
  lookup-insert end e (or_empty (lookup end row) ++ x ∷ []) row,
  append-ne-nil (or_empty (lookup end row)) x,
)

set-filled :
    (rows : List Row) (i j : ℕ) (end e : ℤ) (x : Version) (row : Row)
    → j < length rows
    → get_elem? rows j ≡ some row
    → lookup_in (get_elem? rows j) e ≢ some []
    → lookup_in (get_elem? rows i) e ≢ some []
    → lookup_in (get_elem? (set rows j (row_append end x row)) i) e ≢ some []
set-filled rows i j end e x row lt at here there =
    ground (arith, get_elem?-set rows j i (row_append end x row), row_append-filled end e x row)

change-filled :
    (c : Change) (g : Graph)
    → ((i : ℕ) (e : ℤ) → lookup_in (get_elem? g.graph i) e ≢ some [])
    → (i : ℕ) (e : ℤ) → lookup_in (get_elem? (change c.start c.end c.dm g).1.graph i) e ≢ some []
unfolding change
change-filled c g h i e = elim (Option-cases (place (length g.graph) c.start)) [
  | inl out ↦ rw (out, change) (h i e)
  | inr (j, into) ↦
      let lt = place-lt (length g.graph) c.start into in
      let (row, at) = get_elem?-some g.graph j lt in
      let x : Version = record { v = g.version + 1; dm = c.dm } in
      rw (into, change)
        (rw (at, change) (set-filled g.graph i j c.end e x row lt at (h j e) (h i e)))
]

pub after-filled :
    (n : ℕ) (h : List Change) (i : ℕ) (e : ℤ)
    → lookup_in (get_elem? (after n h).graph i) e ≢ some []
unfolding after lookup
after-filled n [] i e = ground (arith, get_elem?-replicate {A = Row} n i [])
after-filled n (c ∷ older) i e = change-filled c (after n older) (after-filled n older) i e

AllAbove-at :
    (k : ℕ) (vs : List Version) (j : ℕ) {y : Version}
    → AllAbove k vs
    → get_elem? vs j ≡ some y
    → k < y.v
AllAbove-at k [] j h e = cc
AllAbove-at k (x ∷ vs) zero h e = ground arith
AllAbove-at k (x ∷ vs) (suc j) h e = AllAbove-at k vs j h.1 e

IsAscending-at : (vs : List Version) → IsAscending vs → Ascending vs
IsAscending-at [] h i j x y lt p q = cc
IsAscending-at (z ∷ vs) h zero zero x y lt p q = absurd (omega arith)
IsAscending-at (z ∷ vs) h zero (suc j) x y lt p q = ground (arith, AllAbove-at z.v vs j h.0 q)
IsAscending-at (z ∷ vs) h (suc i) zero x y lt p q = absurd (omega arith)
IsAscending-at (z ∷ vs) h (suc i) (suc j) x y lt p q =
    IsAscending-at vs h.1 i j x y (omega arith) p q

-- The answer that the entry found gives.
abbrev pub live : Option Bool → Bool
live none = false
live (some dm) = not dm

is_live-entry :
    (vs : List Version) (n : ℕ)
    → n ≤ length vs
    → is_live vs (if ltb 0 n then some (n - 1) else none) ≡ ok (live (marker (entry_before vs n)))
unfolding is_live
is_live-entry vs zero h = refl
is_live-entry vs (suc n) h = let (x, at) = get_elem?-some vs n (omega arith) in ground (arith, at)

pub searched_live :
    (v : ℤ) (vs : List Version)
    → vs ≢ []
    → IsAscending vs
    → (search_for_version v vs >>= λ idx. is_live vs idx)
      ≡ ok (live (marker (last_kept (newer v) vs)))
searched_live v vs filled asc =
    let (n, s, found) = search_for_version_lem v vs (IsAscending-at vs asc) (grind arith) in
    rw (found, is_live-entry vs n s.bounded, entry_before-Splits (newer v) vs n s)

edge_in_row_lem :
    (end v : ℤ) (row : Row)
    → lookup end row ≢ some []
    → IsAscending (or_empty (lookup end row))
    → edge_in_row end v row ≡ ok (live (marker (last_kept (newer v) (or_empty (lookup end row)))))
unfolding edge_in_row
edge_in_row_lem end v row filled asc = elim (Option-cases (lookup end row)) [
  | inl e ↦ rw (e, edge_in_row)
  | inr (vs, e) ↦
      rw (e, edge_in_row)
        (searched_live v vs (λ empty. filled (e ∙ ap some empty))
          (subst (λ o. IsAscending (or_empty o)) e asc))
]

-- The specification of `has_edge` for any `start`: out of range there is no edge.
abbrev pub present_from : ℕ → ℤ → ℤ → ℤ → List Change → Bool
present_from n (pos i) end v h = ltb i n && is_present n i end v h
present_from n (negsuc i) end v h = false

pub live-present :
    (n i : ℕ) (end v : ℤ) (h : List Change)
    → live (last_change n i end v h) ≡ is_present n i end v h
live-present n i end v h = ground arith

has_edge-negative : (g : Graph) (i : ℕ) (end v : ℤ) → has_edge (negsuc i) end v g ≡ ok false
unfolding has_edge
has_edge-negative g i end v = ground arith

has_edge-outside :
    (g : Graph) (i : ℕ) (end v : ℤ)
    → ltb i (length g.graph) ≡ false
    → has_edge (pos i) end v g ≡ ok false
unfolding has_edge
has_edge-outside g i end v h = ground arith

has_edge-inside :
    (g : Graph) (i : ℕ) (end v : ℤ) (row : Row)
    → ltb i (length g.graph) ≡ true
    → get_elem? g.graph i ≡ some row
    → has_edge (pos i) end v g ≡ edge_in_row end v row
unfolding has_edge
has_edge-inside g i end v row lt at = ground (arith, lt, at)

-- After any history of changes, also of ones that raise, `has_edge` at version `v` returns normally,
-- and says whether the last change of the edge among the first `v` changes added it. For a start
-- that is no node it says no.
pub has_edge-after :
    (n : ℕ) (h : List Change) (start end v : ℤ)
    → has_edge start end v (after n h) ≡ ok (present_from n start end v h)
has_edge-after n h (negsuc i) end v = has_edge-negative (after n h) i end v
has_edge-after n h (pos i) end v = elim (Bool-cases (ltb i n)) [
  | inr out ↦ has_edge-outside (after n h) i end v (rw length-after out) ∙ rw out
  | inl into ↦
      let (row, at) = get_elem?-some (after n h).graph i (rw length-after (ground arith)) in
      let kept = subst (λ o. lookup_in o end ≢ some []) at (after-filled n h i end) in
      let records =
        subst (λ o. Records n i end h (versions_in o end)) at (Records-after n i end h) in
      has_edge-inside (after n h) i end v row (rw length-after into) at
      ∙ edge_in_row_lem end v row kept records.ascending
      ∙ rw (into, records.answers v) (ap ok (live-present n i end v h))
]
