-- ===== src/VersionedGraph/Tests.antt =====
-- The run at the end of python/versioned_graph.py, and the theorems at its graph.
use code_recipes.Common.{
  ℕ, zero, suc, ◌-◌, ◌≡◌, refl, true, false, ◌&&◌, none, some, List, [], ◌∷◌, arith, ltb, length,
  if◌then◌else◌,
}
use code_recipes.Common.Int.{ℤ, pos}
use code_recipes.Common.Bisect.{Splits}
use code_recipes.Common.Sort.{elem}
use code_recipes.Common.Result.{ok}
use code_recipes.VersionedGraph.Bfs.{bfs}
use code_recipes.VersionedGraph.Bfs.Distance.{Frontiers, bfs-after}
use code_recipes.VersionedGraph.Search.{Version, newer, search_for_version, search_for_version_easy}
use code_recipes.VersionedGraph.Search.Correct.{
  Ascending, search_for_version_lem, search_for_version-eq-easy,
}
use code_recipes.VersionedGraph.Graph.{has_edge}
use code_recipes.VersionedGraph.Graph.History.{Change, after}
use code_recipes.VersionedGraph.Graph.History.Answers.{present_from, has_edge-after}
use code_recipes.VersionedGraph.Edges.{list_edges, common_connections}
use code_recipes.VersionedGraph.Edges.Keys.{IsAscending}
use code_recipes.Common.Eq.{int_eq}
use code_recipes.VersionedGraph.Edges.Contract.{list_edges-after}
use code_recipes.VersionedGraph.Edges.Common.{common_connections-after}

abbrev history : List Change
history =
    record { start = pos 3; end = pos 0; dm = true }
    ∷ record { start = pos 0; end = pos 3; dm = true }
    ∷ record { start = pos 3; end = pos 0; dm = false }
    ∷ record { start = pos 3; end = pos 0; dm = false }
    ∷ record { start = pos 0; end = pos 3; dm = false }
    ∷ record { start = pos 0; end = pos 2; dm = false }
    ∷ []

deleted : present_from 4 (pos 0) (pos 3) (pos 5) history ≡ false
deleted = refl

not_yet_deleted : present_from 4 (pos 0) (pos 3) (pos 3) history ≡ true
not_yet_deleted = refl

abbrev kept : List Version
kept = record { v = 2; dm = false } ∷ record { v = 5; dm = true } ∷ []

kept-Ascending : Ascending kept
kept-Ascending zero (suc zero) x y lt p q = ground arith
kept-Ascending zero zero x y lt p q = absurd (omega arith)
kept-Ascending zero (suc (suc j)) x y lt p q = cc
kept-Ascending (suc i) zero x y lt p q = absurd (omega arith)
kept-Ascending (suc i) (suc zero) x y lt p q = absurd (omega arith)
kept-Ascending (suc i) (suc (suc j)) x y lt p q = cc

search_for_version_lem_example :
    (n : ℕ) × Splits (newer (pos 3)) kept n
    × (search_for_version (pos 3) kept ≡ ok (if ltb 0 n then some (n - 1) else none))
search_for_version_lem_example = search_for_version_lem (pos 3) kept kept-Ascending (omega arith)

search_for_version-eq-easy_example :
    search_for_version (pos 3) kept ≡ ok (search_for_version_easy (pos 3) kept)
search_for_version-eq-easy_example =
    search_for_version-eq-easy (pos 3) kept kept-Ascending (omega arith)

has_edge-after_example : has_edge (pos 0) (pos 3) (pos 3) (after 4 history) ≡ ok true
has_edge-after_example = has_edge-after 4 history (pos 0) (pos 3) (pos 3)

list_edges-after_example :
    (es : List ℤ) × (list_edges (pos 0) (pos 3) (after 4 history) ≡ ok es)
    × IsAscending es
    × ((end : ℤ) → elem end es ≡ present_from 4 (pos 0) end (pos 3) history)
list_edges-after_example = list_edges-after 4 history (pos 0) (pos 3)

common_connections-after_example :
    (es : List ℤ) × (common_connections (after 4 history) (pos 0) (pos 3) (pos 4) ≡ ok es)
    × IsAscending es
    × ((end : ℤ)
        → elem end es ≡ (
            present_from 4 (pos 0) end (pos 4) history
            && present_from 4 (pos 3) end (pos 4) history))
common_connections-after_example = common_connections-after 4 history (pos 0) (pos 3) (pos 4)

bfs-after_example :
    (ls : List (List ℤ)) × (bfs (after 4 history) (pos 0) (pos 3) 2 ≡ ok ls)
    × (length ls ≡ 3)
    × Frontiers (λ w u. present_from 4 w u (pos 3) history) (pos 0) 0 ls
bfs-after_example = bfs-after 4 history (pos 0) (pos 3) 2
