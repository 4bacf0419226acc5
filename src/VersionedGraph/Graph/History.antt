-- ===== src/VersionedGraph/Graph/History.antt =====
-- The versions that a history of changes leaves behind, against the history itself.
pub mod Versions
pub mod Answers
use code_recipes.Common.{
  ℕ, suc, ◌+◌, ◌≡◌, Bool, true, false, not, ◌&&◌, Option, none, some, List, [], ◌∷◌, ◌==◌,
  if◌then◌else◌, length, get_elem?,
}
use code_recipes.Common.Int.{ℤ, pos, leb_ℤ}
use code_recipes.Common.Index.{place}
use code_recipes.Common.Eq.{int_eq, int_beq}
use code_recipes.Common.Dict.{lookup}
use code_recipes.VersionedGraph.Search.{Version}
use code_recipes.VersionedGraph.Graph.{Graph, new, or_empty, change}

-- A call of `add_edge` (`dm` false) or `delete_edge` (`dm` true).
pub record Change : Type 0 where
  pub start : ℤ
  pub end : ℤ
  pub dm : Bool

-- A graph of `n` nodes after the changes of a history, the newest first. A change that raises
-- counts too.
unfoldable pub after : ℕ → List Change → Graph
unfolding change
after n [] = new n
after n (c ∷ older) = (change c.start c.end c.dm (after n older)).1

-- The change is of an edge from node `i` to node `end`.
abbrev pub hits : ℕ → ℕ → ℤ → Change → Bool
hits n i end c = elim (place n c.start) [ none ↦ false | some j ↦ j == i && int_beq c.end end ]

-- The last change of the edge among the first `t` changes: whether it deleted the edge.
abbrev pub last_change : ℕ → ℕ → ℤ → ℤ → List Change → Option Bool
last_change n i end t [] = none
last_change n i end t (c ∷ older) =
    if leb_ℤ (pos (suc (length older))) t && hits n i end c
    then some c.dm
    else last_change n i end t older

-- The specification of `has_edge`: the edge's last change up to version `t` added it.
abbrev pub is_present : ℕ → ℕ → ℤ → ℤ → List Change → Bool
is_present n i end t h = elim (last_change n i end t h) [ none ↦ false | some dm ↦ not dm ]

-- The versions that the graph keeps for an edge.
abbrev pub versions_in : Option (List (ℤ × List Version)) → ℤ → List Version
versions_in none end = []
versions_in (some row) end = or_empty (lookup end row)

abbrev pub versions_of : Graph → ℕ → ℤ → List Version
versions_of g i end = versions_in (get_elem? g.graph i) end
