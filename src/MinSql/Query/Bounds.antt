-- ===== src/MinSql/Query/Bounds.antt =====
-- A query of a valid table never looks for a value past the end of a row.
use code_recipes.Common.{
  ℕ, zero, suc, ◌<◌, ◌≢◌, sym, subst, arith, Bool, true, false, if◌then◌else◌, List, [], ◌∷◌,
  length, get_elem?,
}
use code_recipes.Common.Eq.{str_eq}
use code_recipes.Common.Result.{ok, err, ◌>>=◌, or_raise}
use code_recipes.MinSql.Value.{
  Value, null, num, str, type_error, index_error, Run, Cmp, is_lt, is_le, is_gt, is_ge, is_eq,
  is_ne, lt, holds, Key,
}
use code_recipes.MinSql.Table.{Row}
use code_recipes.MinSql.Table.Valid.{RowsOf}
use code_recipes.MinSql.Query.{
  Query, LogicOp, and_op, or_op, Cond, match_loop, match_row, project, matches, all_comparable,
  sorted_rows, commit,
}
use code_recipes.MinSql.Query.Sound.{AllBelow, CondsBelow, IsSound}

-- An answer, or an exception other than an IndexError.
abbrev Clear : {A : Type 0} → Run A → Type 0
Clear (ok a) = Unit
Clear (err e) = e ≢ index_error

Clear-bind :
    {A B : Type 0} (r : Run A) (k : A → Run B) → Clear r → ((a : A) → Clear (k a)) → Clear (r >>= k)
Clear-bind (ok a) k c f = f a
Clear-bind (err e) k c f = c

no_type_error : type_error ≢ index_error
no_type_error h = ground arith

get_elem?-within :
    {A : Type 0} (xs : List A) (i : ℕ)
    → i < length xs
    → Clear (or_raise (get_elem? xs i) index_error)
get_elem?-within [] i h = ground arith
get_elem?-within (x ∷ xs) zero h = tt
get_elem?-within (x ∷ xs) (suc i) h = get_elem?-within xs i (omega arith)

lt-Clear : (a b : Value) → Clear (lt a b)
lt-Clear null null = tt
lt-Clear null (num b) = tt
lt-Clear null (str b) = tt
lt-Clear (num a) null = tt
lt-Clear (num a) (num b) = tt
lt-Clear (num a) (str b) = no_type_error
lt-Clear (str a) null = tt
lt-Clear (str a) (num b) = no_type_error
lt-Clear (str a) (str b) = tt

holds-Clear : (op : Cmp) (a b : Value) → Clear (holds op a b)
holds-Clear is_lt a b = lt-Clear a b
holds-Clear is_le a b = Clear-bind (lt a b) _ (lt-Clear a b) (λ l. tt)
holds-Clear is_gt a b = Clear-bind (lt a b) _ (lt-Clear a b) (λ l. tt)
holds-Clear is_ge a b = Clear-bind (lt a b) _ (lt-Clear a b) (λ l. tt)
holds-Clear is_eq a b = tt
holds-Clear is_ne a b = tt

either-Clear :
    {A : Type 0} (b : Bool) (r s : Run A) → Clear r → Clear s → Clear (if b then r else s)
either-Clear true r s c d = c
either-Clear false r s c d = d

project-Clear : (is : List ℕ) (row : Row) → AllBelow (length row) is → Clear (project is row)
unfolding project
project-Clear [] row b = tt
project-Clear (i ∷ is) row b =
    Clear-bind (or_raise (get_elem? row i) index_error) _ (get_elem?-within row i b.0)
      (λ v. Clear-bind (project is row) _ (project-Clear is row b.1) (λ vs. tt))

match_loop-Clear :
    (op : LogicOp) (cs : List Cond) (row : Row)
    → CondsBelow (length row) cs
    → Clear (match_loop op cs row)
unfolding match_loop
match_loop-Clear op [] row b = tt
match_loop-Clear and_op (c ∷ cs) row b =
    Clear-bind (or_raise (get_elem? row c.c_idx) index_error) _ (get_elem?-within row c.c_idx b.0)
      (λ lv.
        Clear-bind (holds c.op lv c.rv) _ (holds-Clear c.op lv c.rv)
          (λ met. either-Clear met _ _ (match_loop-Clear and_op cs row b.1) tt))
match_loop-Clear or_op (c ∷ cs) row b =
    Clear-bind (or_raise (get_elem? row c.c_idx) index_error) _ (get_elem?-within row c.c_idx b.0)
      (λ lv.
        Clear-bind (holds c.op lv c.rv) _ (holds-Clear c.op lv c.rv)
          (λ met. either-Clear met _ _ tt (match_loop-Clear or_op cs row b.1)))

first_conds :
    (op : LogicOp) (cs : List Cond) (row : Row)
    → CondsBelow (length row) cs
    → Clear (elim cs [ [] ↦ ok true | c ∷ conds ↦ match_loop op (c ∷ conds) row ])
first_conds op [] row b = tt
first_conds op (c ∷ cs) row b = match_loop-Clear op (c ∷ cs) row b

match_row-Clear :
    (q : Query) (row : Row) → CondsBelow (length row) q.wheres → Clear (match_row q row)
unfolding match_row
match_row-Clear q row b = first_conds q.where_op q.wheres row b

matches-Clear :
    (q : Query) (rows : List Row) → RowsOf q.t.n rows → IsSound q → Clear (matches q rows)
unfolding matches
matches-Clear q [] r s = tt
matches-Clear q (row ∷ rows) r s =
    let back = sym r.0 in
    Clear-bind (project q.orders row) _
      (project-Clear q.orders row (subst (λ n. AllBelow n q.orders) back s.orders_in))
      (λ k.
        Clear-bind (match_row q row) _
          (match_row-Clear q row (subst (λ n. CondsBelow n q.wheres) back s.wheres_in))
          (λ met.
            either-Clear met _ _
              (Clear-bind (project q.selects row) _
                (project-Clear q.selects row (subst (λ n. AllBelow n q.selects) back s.selects_in))
                (λ vs. Clear-bind (matches q rows) _ (matches-Clear q rows r.1 s) (λ rest. tt)))
              (matches-Clear q rows r.1 s)))

sorted_rows-Clear : (desc : Bool) (rs : List (Key × List Value)) → Clear (sorted_rows desc rs)
unfolding sorted_rows
sorted_rows-Clear desc rs = either-Clear (all_comparable rs) _ _ tt no_type_error

commit-Clear : (q : Query) → IsSound q → Clear (commit q)
unfolding commit
commit-Clear q s =
    Clear-bind (matches q q.t.rows) _ (matches-Clear q q.t.rows s.valid.rows_of s) (λ res.
      Clear-bind (sorted_rows q.order_desc res) _ (sorted_rows-Clear q.order_desc res) (λ rs. tt))

Clear-not_index : {A : Type 0} (r : Run A) → Clear r → r ≢ err index_error
Clear-not_index (ok a) c h = cc
Clear-not_index (err e) c h = c (ground arith)

-- `commit` raises no IndexError for a sound query: a valid table, and places that are columns of it.
pub commit-no_index_error : (q : Query) → IsSound q → commit q ≢ err index_error
commit-no_index_error q s = Clear-not_index (commit q) (commit-Clear q s)
