-- ===== src/VersionedGraph/Graph.antt =====
-- `VersionedDirectedGraph` of python/versioned_graph.py: its state, its changes and `has_edge`.
-- The `defaultdict` of a start node is an association list in insertion order.
pub mod History
use code_recipes.Common.{
  ℕ, suc, ◌+◌, ◌-◌, Bool, true, false, not, ◌||◌, Option, none, some, List, [], ◌∷◌, ◌++◌, ltb, leb,
  if◌then◌else◌, length, get_elem?, set, replicate, last?,
}
use code_recipes.Common.Int.{ℤ, pos, ltb_ℤ, leb_ℤ}
use code_recipes.Common.Index.{place}
use code_recipes.Common.Eq.{int_eq, bool_beq}
use code_recipes.Common.Dict.{Dict, lookup, insert}
use code_recipes.Common.Result.{Result, ok, err, ◌>>=◌, or_raise}
use code_recipes.VersionedGraph.Search.{Version, Run, index_error, search_for_version}

abbrev pub Row : Type 0
Row = Dict ℤ (List Version)

pub record Graph : Type 0 where
  pub graph : List Row
  pub version : ℕ

-- `VersionedDirectedGraph(n)`
abbrev pub new : ℕ → Graph
new n = record { graph = replicate n []; version = 0 }

abbrev pub or_empty : Option (List Version) → List Version
or_empty none = []
or_empty (some versions) = versions

-- `versions and versions[-1].dm == dm`
abbrev pub ends_with : List Version → Bool → Bool
ends_with versions dm = elim (last? versions) [ none ↦ false | some x ↦ bool_beq x.dm dm ]

-- What `_append_version` does to the dict of the start node.
unfoldable pub row_append : ℤ → Version → Row → Row
row_append end x row =
    let versions = or_empty (lookup end row) in
    if ends_with versions x.dm then row else insert end (versions ++ x ∷ []) row

unfoldable pub append_version : ℤ → ℤ → Bool → Graph → Run Graph
unfolding row_append
append_version start end dm g = do
  i ← or_raise (place (length g.graph) start) index_error
  row ← or_raise (get_elem? g.graph i) index_error
  ok (record g { graph = set g.graph i (row_append end (record { v = g.version; dm = dm }) row) })

-- The version number grows also if the change then raises an `IndexError`.
unfoldable pub change : ℤ → ℤ → Bool → Graph → Run ℕ × Graph
unfolding append_version
change start end dm g =
    let g' = record g { version = g.version + 1 } in
    elim (append_version start end dm g') [ ok g'' ↦ (ok g''.version, g'') | err e ↦ (err e, g') ]

unfoldable pub add_edge : ℤ → ℤ → Graph → Run ℕ × Graph
unfolding change
add_edge start end g = change start end false g

unfoldable pub delete_edge : ℤ → ℤ → Graph → Run ℕ × Graph
unfolding change
delete_edge start end g = change start end true g

abbrev pub snapshot : Graph → ℕ
snapshot g = g.version

-- `idx is not None and not versions[idx].dm`
unfoldable pub is_live : List Version → Option ℕ → Run Bool
is_live versions none = ok false
is_live versions (some idx) = do x ← or_raise (get_elem? versions idx) index_error; ok (not x.dm)

-- `start < 0 or start >= len(self.graph)`
abbrev pub out_of_range : ℤ → Graph → Bool
out_of_range start g = ltb_ℤ start (pos 0) || leb_ℤ (pos (length g.graph)) start

unfoldable pub edge_in_row : ℤ → ℤ → Row → Run Bool
unfolding is_live
edge_in_row end v row = elim (lookup end row) [
  | none ↦ ok false
  | some versions ↦ (do idx ← search_for_version v versions; is_live versions idx)
]

unfoldable pub has_edge : ℤ → ℤ → ℤ → Graph → Run Bool
unfolding edge_in_row
has_edge start end v g = if out_of_range start g then ok false else do
  i ← or_raise (place (length g.graph) start) index_error
  row ← or_raise (get_elem? g.graph i) index_error
  edge_in_row end v row
