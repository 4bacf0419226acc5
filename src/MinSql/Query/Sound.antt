-- ===== src/MinSql/Query/Sound.antt =====
-- A sound query: a valid table, and places that are columns of it.
use code_recipes.Common.{ℕ, ◌<◌, ◌≡◌, subst, Bool, List, [], ◌∷◌}
use code_recipes.Common.Eq.{Str, str_eq}
use code_recipes.Common.Dict.{lookup}
use code_recipes.Common.Result.{ok, or_raise, >>=-eq-ok, or_raise-eq-ok}
use code_recipes.MinSql.Value.{Value, SqlError, no_such_column, key_error, Run, Cmp}
use code_recipes.MinSql.Table.{Table}
use code_recipes.MinSql.Table.Valid.{IsValid, lookup-Below}
use code_recipes.MinSql.Query.{
  Query, query, LogicOp, Cond, places, select, conditions, where_, order_by,
}

abbrev pub AllBelow : ℕ → List ℕ → Type 0
AllBelow n [] = Unit
AllBelow n (i ∷ is) = (i < n) × AllBelow n is

abbrev pub CondsBelow : ℕ → List Cond → Type 0
CondsBelow n [] = Unit
CondsBelow n (c ∷ cs) = (c.c_idx < n) × CondsBelow n cs

-- A valid table, and places that are columns of it.
pub record IsSound (q : Query) : Type 0 where
  pub valid : IsValid q.t
  pub selects_in : AllBelow q.t.n q.selects
  pub orders_in : AllBelow q.t.n q.orders
  pub wheres_in : CondsBelow q.t.n q.wheres

abbrev ran {ℓ} : {A : Type ℓ} → A → Run A
ran a = ok a

ok_inj {ℓ} : {A : Type ℓ} {a b : A} → ran a ≡ ran b → a ≡ b
ok_inj e = cc

places-AllBelow :
    (missing : SqlError) (t : Table) (cols : List Str) {is : List ℕ}
    → IsValid t
    → places missing t cols ≡ ok is
    → AllBelow t.n is
unfolding places
places-AllBelow missing t [] v h = subst (AllBelow t.n) (ok_inj h) tt
places-AllBelow missing t (c ∷ cols) v h =
    let first = >>=-eq-ok (or_raise (lookup c t.col_index) missing) _ h in
    let rest = >>=-eq-ok (places missing t cols) _ first.2 in
    subst (AllBelow t.n) (ok_inj rest.2) (
      lookup-Below c t.n t.col_index v.places_below
          (or_raise-eq-ok (lookup c t.col_index) missing first.1),
      places-AllBelow missing t cols v rest.1,
    )

conditions-CondsBelow :
    (t : Table) (conds : List (Str × Cmp × Value)) {cs : List Cond}
    → IsValid t
    → conditions t conds ≡ ok cs
    → CondsBelow t.n cs
unfolding conditions
conditions-CondsBelow t [] v h = subst (CondsBelow t.n) (ok_inj h) tt
conditions-CondsBelow t ((c, op, rv) ∷ conds) v h =
    let first = >>=-eq-ok (or_raise (lookup c t.col_index) key_error) _ h in
    let rest = >>=-eq-ok (conditions t conds) _ first.2 in
    subst (CondsBelow t.n) (ok_inj rest.2) (
      lookup-Below c t.n t.col_index v.places_below
          (or_raise-eq-ok (lookup c t.col_index) key_error first.1),
      conditions-CondsBelow t conds v rest.1,
    )

pub query-IsSound : (t : Table) → IsValid t → IsSound (query t)
query-IsSound t v = record { valid = v; selects_in = tt; orders_in = tt; wheres_in = tt }

pub select-IsSound :
    (cols : List Str) (q : Query) {r : Query} → IsSound q → select cols q ≡ ok r → IsSound r
unfolding select
select-IsSound cols q s h =
    let found = >>=-eq-ok (places no_such_column q.t cols) _ h in
    subst IsSound (ok_inj found.2) (record {
      valid = s.valid;
      selects_in = places-AllBelow no_such_column q.t cols s.valid found.1;
      orders_in = s.orders_in;
      wheres_in = s.wheres_in;
    })

pub where_-IsSound :
    (conds : List (Str × Cmp × Value)) (op : LogicOp) (q : Query) {r : Query}
    → IsSound q
    → where_ conds op q ≡ ok r
    → IsSound r
unfolding where_
where_-IsSound conds op q s h =
    let found = >>=-eq-ok (conditions q.t conds) _ h in
    subst IsSound (ok_inj found.2) (record {
      valid = s.valid;
      selects_in = s.selects_in;
      orders_in = s.orders_in;
      wheres_in = conditions-CondsBelow q.t conds s.valid found.1;
    })

pub order_by-IsSound :
    (cols : List Str) (desc : Bool) (q : Query) {r : Query}
    → IsSound q
    → order_by cols desc q ≡ ok r
    → IsSound r
unfolding order_by
order_by-IsSound cols desc q s h =
    let found = >>=-eq-ok (places key_error q.t cols) _ h in
    subst IsSound (ok_inj found.2) (record {
      valid = s.valid;
      selects_in = s.selects_in;
      orders_in = places-AllBelow key_error q.t cols s.valid found.1;
      wheres_in = s.wheres_in;
    })
