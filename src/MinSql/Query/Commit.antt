-- ===== src/MinSql/Query/Commit.antt =====
-- The rows that `commit` answers, and their order.
use code_recipes.Common.{
  ◌≡◌, refl, ◌∙◌, ap, sym, Bool, true, false, ◌&&◌, ◌||◌, ◌⊎◌, List, [], ◌∷◌, map, filter,
  Bool-cases, inl, inr, get_elem?, some,
}
use code_recipes.Common.Eq.{list_beq, list_beq_iff}
use code_recipes.Common.Sort.{sorted, IsSorted, sorted-IsSorted}
use code_recipes.Common.Sort.Stable.{filter-sorted}
use code_recipes.Common.Result.{ok, err, ◌>>=◌}
use code_recipes.MinSql.Value.{Value, value_eq, Key, lt_key, holds, type_error}
use code_recipes.MinSql.Value.Order.{key_Ordered}
use code_recipes.MinSql.Table.{Row}
use code_recipes.MinSql.Query.{
  Query, LogicOp, and_op, or_op, Cond, before, all_comparable, matches, sorted_rows, match_loop,
  commit,
}

abbrev pub has_key : Key → Key × List Value → Bool
has_key k r = list_beq r.0 k

before-asym :
    (desc : Bool) (a b : Key × List Value) → before desc a b ≡ true → before desc b a ≡ false
before-asym false a b h = key_Ordered.asym a.0 b.0 h
before-asym true a b h = key_Ordered.asym b.0 a.0 h

before-not_less :
    (desc : Bool) (a b c : Key × List Value)
    → before desc b a ≡ false
    → before desc c b ≡ false
    → before desc c a ≡ false
before-not_less false a b c h g = key_Ordered.not_less a.0 b.0 c.0 h g
before-not_less true a b c h g = key_Ordered.not_less c.0 b.0 a.0 g h

keys_tied : (k a b : Key) → list_beq a k ≡ true → list_beq b k ≡ true → lt_key b a ≡ false
keys_tied k a b h g =
    let ea : a ≡ k = (list_beq_iff a k).0 h in
    let eb : b ≡ k = (list_beq_iff b k).0 g in
    ap (λ x. lt_key x a) (eb ∙ sym ea) ∙ key_Ordered.irrefl a

before-tied :
    (desc : Bool) (k : Key) (a b : Key × List Value)
    → has_key k a ≡ true
    → has_key k b ≡ true
    → before desc b a ≡ false
before-tied false k a b h g = keys_tied k a.0 b.0 h g
before-tied true k a b h g = keys_tied k b.0 a.0 g h

-- The rows `res` in the order of their keys, descending where `desc`, equal keys as they came.
pub record InOrder (desc : Bool) (res : List (Key × List Value)) (out : List (List Value))
    : Type 0 where
  pub rows : List (Key × List Value)
  pub out_is : out ≡ map (λ r. r.1) rows
  pub ascending : IsSorted (before desc) rows
  pub stable : (k : Key) → filter (has_key k) rows ≡ filter (has_key k) res

sorted-InOrder :
    (desc : Bool) (res : List (Key × List Value))
    → InOrder desc res (map (λ r. r.1) (sorted (before desc) res))
sorted-InOrder desc res = record {
  rows = sorted (before desc) res;
  out_is = refl;
  ascending = sorted-IsSorted (before desc) (before-asym desc) (before-not_less desc) res;
  stable = λ k. filter-sorted (before desc) (has_key k) (before-tied desc k) res;
}

sorted_rows-comparable :
    (desc : Bool) (res : List (Key × List Value))
    → all_comparable res ≡ true
    → sorted_rows desc res ≡ ok (sorted (before desc) res)
unfolding sorted_rows
sorted_rows-comparable desc res c = rw c

sorted_rows-mixed :
    (desc : Bool) (res : List (Key × List Value))
    → all_comparable res ≡ false
    → sorted_rows desc res ≡ err type_error
unfolding sorted_rows
sorted_rows-mixed desc res c = rw c

commit-step :
    (q : Query) {res : List (Key × List Value)}
    → matches q q.t.rows ≡ ok res
    → commit q ≡ (sorted_rows q.order_desc res >>= λ rs. ok (map (λ r. r.1) rs))
unfolding commit
commit-step q m = rw m

-- The answer for the keys and rows of the loop.
pub commit-InOrder :
    (q : Query) (res : List (Key × List Value))
    → matches q q.t.rows ≡ ok res
    → ((all_comparable res ≡ true)
        × ((out : List (List Value)) × (commit q ≡ ok out) × InOrder q.order_desc res out))
      ⊎ ((all_comparable res ≡ false) × (commit q ≡ err type_error))
commit-InOrder q res m = elim (Bool-cases (all_comparable res)) [
  | inl c ↦ inl (
    c,
    (
      map (λ r. r.1) (sorted (before q.order_desc) res),
      commit-step q m
          ∙ ap (λ s. s >>= λ rs. ok (map (λ r. r.1) rs))
              (sorted_rows-comparable q.order_desc res c),
      sorted-InOrder q.order_desc res,
    ),
  )
  | inr c ↦ inr (
    c,
    commit-step q m
        ∙ ap (λ s. s >>= λ rs. ok (map (λ r. r.1) rs)) (sorted_rows-mixed q.order_desc res c),
  )
]

-- What the conditions answer for a row, where none raises an exception.
pub data Tried (row : Row) : List Cond → List Bool → Type 0 where
  none_tried : Tried row [] []
  tried :
      {c : Cond} {lv : Value} {met : Bool} {cs : List Cond} {bs : List Bool}
      → get_elem? row c.c_idx ≡ some lv
      → holds c.op lv c.rv ≡ ok met
      → Tried row cs bs
      → Tried row (c ∷ cs) (met ∷ bs)

abbrev pub all_true : List Bool → Bool
all_true [] = true
all_true (b ∷ bs) = b && all_true bs

abbrev pub some_true : List Bool → Bool
some_true [] = false
some_true (b ∷ bs) = b || some_true bs

abbrev pub both_ways : LogicOp → List Bool → Bool
both_ways and_op bs = all_true bs
both_ways or_op bs = some_true bs

-- A row matches when all its conditions hold, for AND, or some condition, for OR.
pub match_loop-Tried :
    (op : LogicOp) (row : Row) (cs : List Cond) (bs : List Bool)
    → Tried row cs bs
    → match_loop op cs row ≡ ok (both_ways op bs)
unfolding match_loop
match_loop-Tried and_op row cs bs none_tried = refl
match_loop-Tried or_op row cs bs none_tried = refl
match_loop-Tried and_op row cs bs (tried {met = true} {cs = ds} {bs = ms} e h rest) =
    rw (e, h, match_loop-Tried and_op row ds ms rest)
match_loop-Tried and_op row cs bs (tried {met = false} e h rest) = rw (e, h)
match_loop-Tried or_op row cs bs (tried {met = true} e h rest) = rw (e, h)
match_loop-Tried or_op row cs bs (tried {met = false} {cs = ds} {bs = ms} e h rest) =
    rw (e, h, match_loop-Tried or_op row ds ms rest)
