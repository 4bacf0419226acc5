-- ===== src/MinSql/Query/Kept.antt =====
-- The rows that `commit` answers, from the rows of the table.
use code_recipes.Common.{ℕ, ◌≡◌, refl, Bool, true, false, ◌⊎◌, List, [], ◌∷◌, get_elem?, some}
use code_recipes.Common.Result.{ok, err}
use code_recipes.MinSql.Value.{Value, Key, type_error}
use code_recipes.MinSql.Table.{Row}
use code_recipes.MinSql.Query.{
  Query, LogicOp, Cond, all_comparable, match_row, match_loop, project, matches, commit,
}
use code_recipes.MinSql.Query.Commit.{
  InOrder, Tried, none_tried, both_ways, match_loop-Tried, commit-InOrder,
}

-- The values of a row at the places.
pub data Picks (row : Row) : List ℕ → List Value → Type 0 where
  no_place : Picks row [] []
  place :
      {i : ℕ} {v : Value} {is : List ℕ} {vs : List Value}
      → get_elem? row i ≡ some v
      → Picks row is vs
      → Picks row (i ∷ is) (v ∷ vs)

-- Whether a row is asked for, from the answers of the conditions: without conditions it always is.
abbrev pub wanted : LogicOp → List Bool → Bool
wanted op [] = true
wanted op (b ∷ bs) = both_ways op (b ∷ bs)

-- The rows that a query asks for, in the order of the table: the values at its `order_by` columns and
-- at its `select` columns. The conditions can be tried on each row.
pub data Kept (q : Query) : List Row → List (Key × List Value) → Type 0 where
  no_row : Kept q [] []
  dropped :
      {row : Row} {rows : List Row} {res : List (Key × List Value)} {key : Key} (bs : List Bool)
      → Picks row q.orders key
      → Tried row q.wheres bs
      → wanted q.where_op bs ≡ false
      → Kept q rows res
      → Kept q (row ∷ rows) res
  kept :
      {row : Row} {rows : List Row} {res : List (Key × List Value)} {key : Key} {vs : List Value}
      (bs : List Bool)
      → Picks row q.orders key
      → Tried row q.wheres bs
      → wanted q.where_op bs ≡ true
      → Picks row q.selects vs
      → Kept q rows res
      → Kept q (row ∷ rows) ((key, vs) ∷ res)

project-Picks :
    (row : Row) (is : List ℕ) (vs : List Value) → Picks row is vs → project is row ≡ ok vs
unfolding project
project-Picks row [] [] no_place = refl
project-Picks row [] (v ∷ vs) h = elim h [ ]
project-Picks row (i ∷ is) [] h = elim h [ ]
project-Picks row (i ∷ is) (v ∷ vs) (place e more) = rw (e, project-Picks row is vs more)

where_answers :
    (op : LogicOp) (row : Row) (cs : List Cond) (bs : List Bool)
    → Tried row cs bs
    → (elim cs [ [] ↦ ok true | c ∷ conds ↦ match_loop op (c ∷ conds) row ]) ≡ ok (wanted op bs)
where_answers op row [] [] none_tried = refl
where_answers op row [] (b ∷ bs) h = elim h [ ]
where_answers op row (c ∷ cs) [] h = elim h [ ]
where_answers op row (c ∷ cs) (b ∷ bs) h = match_loop-Tried op row (c ∷ cs) (b ∷ bs) h

match_row-Tried :
    (q : Query) (row : Row) (bs : List Bool)
    → Tried row q.wheres bs
    → match_row q row ≡ ok (wanted q.where_op bs)
unfolding match_row
match_row-Tried q row bs h = where_answers q.where_op row q.wheres bs h

matches-Kept :
    (q : Query) (rows : List Row) (res : List (Key × List Value))
    → Kept q rows res
    → matches q rows ≡ ok res
unfolding matches
matches-Kept q [] [] no_row = refl
matches-Kept q [] (r ∷ res) h = elim h [ ]
matches-Kept q (row ∷ rows) res (dropped {key = key} bs k t w more) =
    rw (project-Picks row q.orders key k, match_row-Tried q row bs t, w)
      (matches-Kept q rows res more)
matches-Kept q (row ∷ rows) res (kept {res = rest} {key = key} {vs = vs} bs k t w p more) =
    rw
      (
        project-Picks row q.orders key k,
        match_row-Tried q row bs t,
        w,
        project-Picks row q.selects vs p,
        matches-Kept q rows rest more,
      )
      refl

-- For any query whose conditions can be tried on every row: the answer has, for each row on which all
-- conditions hold (AND), some condition does (OR) or there are none, the values of the selected columns;
-- in the order of the values of the `order_by` columns, ascending or descending as the query says, and
-- rows with equal ones in the order they were inserted in. Where two of these rows have a number and a
-- text at the first place at which their `order_by` values differ, the answer is a TypeError instead.
pub commit-Kept :
    (q : Query) (res : List (Key × List Value))
    → Kept q q.t.rows res
    → ((all_comparable res ≡ true)
        × ((out : List (List Value)) × (commit q ≡ ok out) × InOrder q.order_desc res out))
      ⊎ ((all_comparable res ≡ false) × (commit q ≡ err type_error))
commit-Kept q res h = commit-InOrder q res (matches-Kept q q.t.rows res h)
