-- ===== src/MinSql/Tests.antt =====
-- The table at the end of python/min_sql.py, and the theorems at queries of it.
use code_recipes.Common.{◌≡◌, ◌≢◌, refl, arith, true, false, List, [], ◌∷◌, some, ◌⊎◌}
use code_recipes.Common.Int.{pos}
use code_recipes.Common.Eq.{Str}
use code_recipes.Common.Result.{ok, err, ◌>>=◌}
use code_recipes.MinSql.Value.{
  Value, null, num, str, no_such_column, index_error, type_error, Key, is_lt,
}
use code_recipes.MinSql.Table.{Table, new, insert_row}
use code_recipes.MinSql.Table.Valid.{IsValid, new-IsValid, insert_row-IsValid}
use code_recipes.MinSql.Query.{Query, query, select, order_by, commit, all_comparable}
use code_recipes.MinSql.Query.Commit.{InOrder, none_tried, tried}
use code_recipes.MinSql.Query.Kept.{Kept, no_row, dropped, kept, no_place, place, commit-Kept}
use code_recipes.MinSql.Query.Sound.{IsSound}
use code_recipes.MinSql.Query.Bounds.{commit-no_index_error}

abbrev name : Str
name = 1 ∷ []

abbrev size : Str
size = 2 ∷ []

abbrev xx : Value
xx = str (120 ∷ 120 ∷ [])

abbrev yy : Value
yy = str (121 ∷ 121 ∷ [])

abbrev empty : Table
empty = record { rows = []; n = 2; col_index = (name, 0) ∷ (size, 1) ∷ [] }

made : new (name ∷ size ∷ []) ≡ ok empty
unfolding new
made = refl

abbrev filled : Table
filled = record empty {
  rows = (yy ∷ num (pos 300) ∷ []) ∷ (xx ∷ num (pos 100) ∷ []) ∷ (yy ∷ null ∷ []) ∷ [];
}

inserted :
    (insert_row
      (name ∷ [])
      (yy ∷ [])
      (insert_row
        (name ∷ size ∷ [])
        (xx ∷ num (pos 100) ∷ [])
        (insert_row (size ∷ name ∷ []) (num (pos 300) ∷ yy ∷ []) empty).0).0).0
    ≡ filled
unfolding insert_row
inserted = refl

-- The row of a call that raises stays in the table.
left_behind :
    insert_row (size ∷ (3 ∷ []) ∷ []) (xx ∷ yy ∷ []) empty
    ≡ (record empty { rows = (null ∷ xx ∷ []) ∷ [] }, some no_such_column)
unfolding insert_row
left_behind = refl

abbrev by_size : Query
by_size = record (query filled) { selects = 0 ∷ []; orders = 1 ∷ []; order_desc = true }

asked : (select (name ∷ []) (query filled) >>= order_by (size ∷ []) true) ≡ ok by_size
unfolding select order_by
asked = refl

answered : commit by_size ≡ ok ((yy ∷ []) ∷ (xx ∷ []) ∷ (yy ∷ []) ∷ [])
unfolding commit
answered = refl

-- `where("size", "<", 200)`, the largest size first
abbrev small : Query
small = record by_size { wheres = record { c_idx = 1; op = is_lt; rv = num (pos 200) } ∷ [] }

abbrev small_rows : List (Key × List Value)
small_rows = ((num (pos 100) ∷ []), xx ∷ []) ∷ ((null ∷ []), yy ∷ []) ∷ []

small-Kept : Kept small small.t.rows small_rows
small-Kept = dropped (false ∷ []) (place refl no_place) (tried refl refl none_tried) refl (
    kept (true ∷ []) (place refl no_place) (tried refl refl none_tried) refl (place refl no_place) (
      kept (true ∷ []) (place refl no_place) (tried refl refl none_tried) refl (place refl no_place)
        no_row))

commit-Kept_example :
    ((all_comparable small_rows ≡ true)
      × ((out : List (List Value)) × (commit small ≡ ok out) × InOrder true small_rows out))
    ⊎ ((all_comparable small_rows ≡ false) × (commit small ≡ err type_error))
commit-Kept_example = commit-Kept small small_rows small-Kept

empty-IsValid : IsValid empty
empty-IsValid = new-IsValid (name ∷ size ∷ []) made

insert_row-IsValid_example : IsValid (insert_row (size ∷ []) (xx ∷ []) empty).0
insert_row-IsValid_example = insert_row-IsValid (size ∷ []) (xx ∷ []) empty empty-IsValid

by_size-IsSound : IsSound by_size
by_size-IsSound = record {
  valid = record {
    rows_of = (refl, (refl, (refl, tt)));
    places_below = (omega arith, (omega arith, tt));
  };
  selects_in = (omega arith, tt);
  orders_in = (omega arith, tt);
  wheres_in = tt;
}

commit-no_index_error_example : commit by_size ≢ err index_error
commit-no_index_error_example = commit-no_index_error by_size by_size-IsSound
