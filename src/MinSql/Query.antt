-- ===== src/MinSql/Query.antt =====
-- `Query`: its clauses and `commit`.
pub mod Commit
pub mod Kept
pub mod Sound
pub mod Bounds
use code_recipes.Common.{
  ℕ, Bool, true, false, not, ◌&&◌, if◌then◌else◌, List, [], ◌∷◌, map, get_elem?, Option, none, some,
}
use code_recipes.Common.Eq.{Str, str_eq}
use code_recipes.Common.Dict.{lookup}
use code_recipes.Common.Sort.{sorted}
use code_recipes.Common.Result.{ok, err, ◌>>=◌, or_raise}
use code_recipes.MinSql.Value.{
  Value, SqlError, no_such_column, key_error, type_error, index_error, Run, Cmp, holds, Key, lt_key,
  comparable_keys,
}
use code_recipes.MinSql.Table.{Row, Table}

pub data LogicOp : Type 0 where
  and_op or_op : LogicOp

-- A condition: a column's place, an operator and a value.
pub record Cond : Type 0 where
  pub c_idx : ℕ
  pub op : Cmp
  pub rv : Value

pub record Query : Type 0 where
  pub t : Table
  pub selects : List ℕ
  pub wheres : List Cond
  pub where_op : LogicOp
  pub orders : List ℕ
  pub order_desc : Bool

abbrev pub query : Table → Query
query t = record {
  t = t;
  selects = [];
  wheres = [];
  where_op = and_op;
  orders = [];
  order_desc = false;
}

-- `[self.t.col_index[c] for c in cols]`, where a column that is not there raises `missing`.
unfoldable pub places : SqlError → Table → List Str → Run (List ℕ)
unfolding lookup
places missing t [] = ok []
places missing t (c ∷ cols) =
    or_raise (lookup c t.col_index) missing >>= λ i. places missing t cols >>= λ is. ok (i ∷ is)

unfoldable pub select : List Str → Query → Run Query
unfolding places
select cols q = places no_such_column q.t cols >>= λ is. ok (record q { selects = is })

-- `Table.select`
abbrev select_from : List Str → Table → Run Query
select_from cols t = select cols (query t)

unfoldable pub conditions : Table → List (Str × Cmp × Value) → Run (List Cond)
unfolding lookup
conditions t [] = ok []
conditions t ((c, op, rv) ∷ conds) = or_raise (lookup c t.col_index) key_error >>= λ i.
    conditions t conds >>= λ rest. ok (record { c_idx = i; op = op; rv = rv } ∷ rest)

unfoldable pub where_ : List (Str × Cmp × Value) → LogicOp → Query → Run Query
unfolding conditions
where_ conds op q =
    conditions q.t conds >>= λ wheres. ok (record q { wheres = wheres; where_op = op })

unfoldable pub order_by : List Str → Bool → Query → Run Query
unfolding places
order_by cols desc q =
    places key_error q.t cols >>= λ is. ok (record q { orders = is; order_desc = desc })

-- What is answered after the last condition.
abbrev pub all_tried : LogicOp → Bool
all_tried and_op = true
all_tried or_op = false

-- The loop of `match_row`.
unfoldable pub match_loop : LogicOp → List Cond → Row → Run Bool
match_loop op [] row = ok (all_tried op)
match_loop op (c ∷ conds) row =
    let rest = match_loop op conds row in
    or_raise (get_elem? row c.c_idx) index_error >>= λ lv. holds c.op lv c.rv >>= λ met. elim op [
      | or_op ↦ (if met then ok true else rest)
      | and_op ↦ (if met then rest else ok false)
    ]

unfoldable pub match_row : Query → Row → Run Bool
unfolding match_loop
match_row q row = elim q.wheres [ [] ↦ ok true | c ∷ conds ↦ match_loop q.where_op (c ∷ conds) row ]

-- `[row[i] for i in places]`
unfoldable pub project : List ℕ → Row → Run (List Value)
project [] row = ok []
project (i ∷ is) row =
    or_raise (get_elem? row i) index_error >>= λ v. project is row >>= λ vs. ok (v ∷ vs)

-- The loop of `commit`: the keys and the columns of the rows that match.
unfoldable pub matches : Query → List Row → Run (List (Key × List Value))
unfolding match_row project
matches q [] = ok []
matches q (row ∷ rows) = project q.orders row >>= λ sort_key. match_row q row >>= λ met.
    if met
    then (project q.selects row >>= λ vs. matches q rows >>= λ rest. ok ((sort_key, vs) ∷ rest))
    else matches q rows

-- Keys that can be compared and ascend one by one can all be compared, so `sorted` succeeds only where
-- every two can, and raises a TypeError elsewhere.
abbrev pub none_against : Key → List (Key × List Value) → Bool
none_against k [] = true
none_against k (r ∷ rs) = comparable_keys k r.0 && none_against k rs

abbrev pub all_comparable : List (Key × List Value) → Bool
all_comparable [] = true
all_comparable (r ∷ rs) = none_against r.0 rs && all_comparable rs

abbrev pub before : Bool → Key × List Value → Key × List Value → Bool
before false a b = lt_key a.0 b.0
before true a b = lt_key b.0 a.0

-- `sorted(res, key=..., reverse=desc)`: equal keys keep their order both ways.
unfoldable pub sorted_rows : Bool → List (Key × List Value) → Run (List (Key × List Value))
unfolding sorted
sorted_rows desc rs = if all_comparable rs then ok (sorted (before desc) rs) else err type_error

unfoldable pub commit : Query → Run (List (List Value))
unfolding matches sorted_rows
commit q =
    matches q q.t.rows >>= λ res. sorted_rows q.order_desc res >>= λ rs. ok (map (λ r. r.1) rs)
