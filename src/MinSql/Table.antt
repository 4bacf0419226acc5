-- ===== src/MinSql/Table.antt =====
-- `Table`, without its name: its rows, and the place of each column.
pub mod Valid
use code_recipes.Common.{
  ℕ, zero, suc, ◌+◌, List, [], ◌∷◌, ◌++◌, length, replicate, set, Option, none, some,
}
use code_recipes.Common.Eq.{Str, str_eq}
use code_recipes.Common.Dict.{Dict, lookup, insert}
use code_recipes.Common.Result.{ok, err, ◌>>=◌}
use code_recipes.MinSql.Value.{Value, null, SqlError, column_already_exists, no_such_column, Run}

abbrev pub Row : Type 0
Row = List Value

pub record Table : Type 0 where
  pub rows : List Row
  pub n : ℕ
  pub col_index : Dict Str ℕ

-- The loop of `__init__`, from column `i` on.
unfoldable pub index_columns : List Str → ℕ → Dict Str ℕ → Run (Dict Str ℕ)
unfolding lookup insert
index_columns [] i col_index = ok col_index
index_columns (col ∷ cols) i col_index = elim (lookup col col_index) [
  | some j ↦ err column_already_exists
  | none ↦ index_columns cols (suc i) (insert col i col_index)
]

unfoldable pub new : List Str → Run Table
unfolding index_columns
new columns = index_columns columns 0 [] >>= λ col_index.
    ok (record { rows = []; n = length columns; col_index = col_index })

-- The loop of `insert` over `zip(cols, vals)`: the new row, and the exception if it raises one.
unfoldable pub fill_row : Dict Str ℕ → List Str → List Value → Row → Row × Option SqlError
unfolding lookup
fill_row col_index [] vals row = (row, none)
fill_row col_index (c ∷ cols) [] row = (row, none)
fill_row col_index (c ∷ cols) (v ∷ vals) row = elim (lookup c col_index) [
  | none ↦ (row, some no_such_column)
  | some i ↦ fill_row col_index cols vals (set row i v)
]

-- The new row stands in the table from the start, also when the call raises.
unfoldable pub insert_row : List Str → List Value → Table → Table × Option SqlError
unfolding fill_row
insert_row cols vals t =
    let filled = fill_row t.col_index cols vals (replicate t.n null) in
    (record t { rows = t.rows ++ filled.0 ∷ [] }, filled.1)
