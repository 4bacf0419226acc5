-- ===== src/VersionedGraph/Bfs.antt =====
-- `bfs`, over the edges that the iterators give. A set is the list of its entries.
pub mod Visit
pub mod Distance
use code_recipes.Common.{
  ℕ, zero, suc, ◌+◌, ◌≤◌, ◌<◌, ◌≡◌, ◌↔◌, refl, sym, ap, ◌∙◌, Bool, true, false, not, ◌&&◌, ◌||◌,
  if◌then◌else◌, arith, Option, none, some, List, [], ◌∷◌, get_elem?, Bool-cases, inl, inr,
}
use code_recipes.Common.Eq.{int_eq, int_beq_iff}
use code_recipes.Common.Int.{ℤ}
use code_recipes.Common.Sort.{elem}
use code_recipes.Common.Result.{Result, ok, err, ◌>>=◌}
use code_recipes.VersionedGraph.Graph.{Graph}
use code_recipes.VersionedGraph.Search.{Run}
use code_recipes.VersionedGraph.Edges.{list_edges}

-- The inner loop, over the ends of the edges of one node: the nodes visited, and the frontier.
unfoldable pub visit : List ℤ → List ℤ → List ℤ → List ℤ × List ℤ
unfolding elem
visit [] visited frontier = (visited, frontier)
visit (u ∷ us) visited frontier =
    if elem u visited then visit us visited frontier else visit us (u ∷ visited) (u ∷ frontier)

unfoldable pub visit_all : (ℤ → Run (List ℤ)) → List ℤ → List ℤ → List ℤ → Run (List ℤ × List ℤ)
unfolding visit
visit_all edges [] visited frontier = ok (visited, frontier)
visit_all edges (node ∷ nodes) visited frontier =
    edges node >>= λ us. (let s = visit us visited frontier in visit_all edges nodes s.0 s.1)

-- `count` frontiers more, after the last one.
unfoldable pub bfs_loop : (ℤ → Run (List ℤ)) → ℕ → List ℤ → List ℤ → Run (List (List ℤ))
unfolding visit_all
bfs_loop edges zero visited last = ok []
bfs_loop edges (suc count) visited last = visit_all edges last visited [] >>= λ s.
    bfs_loop edges count s.0 s.1 >>= λ rest. ok (s.1 ∷ rest)

unfoldable pub bfs : Graph → ℤ → ℤ → ℕ → Run (List (List ℤ))
unfolding bfs_loop list_edges
bfs g start snapshot max_dist =
    bfs_loop (λ node. list_edges node snapshot g) max_dist (start ∷ []) (start ∷ []) >>= λ rest.
    ok ((start ∷ []) ∷ rest)
