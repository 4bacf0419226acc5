-- ===== src/VersionedGraph/Edges.antt =====
-- `EdgeIterator`, `get_edge_iterator`, and `common_connections` of python/versioned_graph.py. The
-- dict that the iterator shares with the graph is an argument of each step.
pub mod Listing
pub mod Keys
pub mod Contract
pub mod Common
use code_recipes.Common.{
  ℕ, zero, suc, ◌+◌, ◌-◌, Bool, Option, none, some, List, [], ◌∷◌, map, ltb, ◌==◌, if◌then◌else◌,
  length, get_elem?,
}
use code_recipes.Common.Int.{ℤ, pos, ltb_ℤ}
use code_recipes.Common.Index.{place}
use code_recipes.Common.Eq.{int_eq, int_beq}
use code_recipes.Common.Dict.{lookup}
use code_recipes.Common.Sort.{sorted}
use code_recipes.Common.Result.{Result, ok, err, ◌>>=◌, or_raise}
use code_recipes.VersionedGraph.Search.{
  Version, Error, Run, index_error, stop, out_of_fuel, search_for_version,
}
use code_recipes.VersionedGraph.Graph.{Graph, Row, or_empty, is_live, out_of_range}

pub record EdgeIterator : Type 0 where
  pub ends : List ℤ
  pub ptr : ℕ
  pub target_version : ℤ

abbrev pub keys : Row → List ℤ
keys row = map (λ e. e.0) row

-- `EdgeIterator(edge_dict, target_version)`
abbrev pub iterator : Row → ℤ → EdgeIterator
iterator row v = record { ends = sorted ltb_ℤ (keys row); ptr = 0; target_version = v }

-- The test in the body of `__next__`.
unfoldable pub live_at : ℤ → Row → ℤ → Run Bool
live_at v row end = do
  let versions = or_empty (lookup end row)
  idx ← search_for_version v versions
  is_live versions idx

-- `__next__`, with the rounds left as fuel
unfoldable pub next_loop : ℕ → Row → EdgeIterator → Run (ℤ × EdgeIterator)
next_loop zero row it = err out_of_fuel
next_loop (suc fuel) row it =
    let it' = record it { ptr = it.ptr + 1 } in
    let round : Run (ℤ × EdgeIterator) = do
      end ← or_raise (get_elem? it.ends it.ptr) index_error
      live ← live_at it.target_version row end
      let rest = next_loop fuel row it'
      if live then ok (end, it') else rest
    in if ltb it.ptr (length it.ends) then round else err stop

unfoldable pub next_edge : Row → EdgeIterator → Run (ℤ × EdgeIterator)
unfolding next_loop
next_edge row it = next_loop (length it.ends - it.ptr + 1) row it

-- `list(it)`: calls of `__next__` until it stops
unfoldable pub drain : ℕ → Row → EdgeIterator → Run (List ℤ)
unfolding next_edge
drain zero row it = err out_of_fuel
drain (suc fuel) row it = elim (next_edge row it) [
  | ok (end, it') ↦ (do rest ← drain fuel row it'; ok (end ∷ rest))
  | err stop ↦ ok []
  | err e ↦ err e
]

-- `list(g.get_edge_iterator(start, v))`
unfoldable pub list_edges : ℤ → ℤ → Graph → Run (List ℤ)
unfolding drain
list_edges start v g = if out_of_range start g then ok [] else do
  i ← or_raise (place (length g.graph) start) index_error
  row ← or_raise (get_elem? g.graph i) index_error
  drain (length (keys row) + 1) row (iterator row v)

-- The loops of `common_connections`. The inner `while` leaves the entries that are less.
unfoldable pub skip_less : ℤ → List ℤ → List ℤ
skip_less a [] = []
skip_less a (b ∷ bs) = if ltb_ℤ b a then skip_less a bs else b ∷ bs

unfoldable pub common : List ℤ → List ℤ → List ℤ
common [] bs = []
common (a ∷ as') bs = elim (skip_less a bs) [
  | [] ↦ []
  | b ∷ rest ↦ if int_beq b a then a ∷ common as' (b ∷ rest) else common as' (b ∷ rest)
]

-- `common_connections(g, a, b, snapshot)`. Listing the edges of `a` first changes nothing.
unfoldable pub common_connections : Graph → ℤ → ℤ → ℤ → Run (List ℤ)
unfolding common skip_less
common_connections g a b v = do
  b_edges ← list_edges b v g
  a_edges ← list_edges a v g
  ok (common a_edges b_edges)
