-- ===== src/KvStore/Store/History.antt =====
-- What `get` answers, from the calls of `set` that made the store.
use code_recipes.Common.{
  subst, ℕ, zero, suc, ◌-◌, ◌≤◌, ◌≡◌, refl, sym, ◌∙◌, ap, ◌&&◌, Option, none, some, List, [], ◌∷◌,
  ◌++◌, append-nil, append_assoc, arith, ltb, if◌then◌else◌, length, get_elem?, inl, inr,
  Option-cases,
}
use code_recipes.Common.Int.{ℤ, leb_ℤ, ◌≤ℤ◌}
use code_recipes.Common.Eq.{Str, str_eq, str_beq, str_beq_iff}
use code_recipes.Common.Dict.{Dict, lookup, lookup-insert}
use code_recipes.Common.Bisect.{
  bisect_right, bisect_right-Splits, IsMonotone, last_kept, later, entry_before,
  entry_before-Splits, get_elem?-some,
}
use mathlib.Core.Option
use code_recipes.Common.Result.{ok, or_raise, ◌>>=◌}
use code_recipes.KvStore.Codec.{index_error}
use code_recipes.KvStore.Store.{TimedValue, before, KvStore, empty, or_empty, append_to, set, get}

-- The arguments of a call of `set`.
pub record Write : Type 0 where
  pub k : Str
  pub v : Str
  pub ts : ℤ

-- `set` for each write in turn
unfoldable pub set_all : List Write → KvStore → KvStore
set_all [] s = s
set_all (w ∷ ws) s = set_all ws (set w.k w.v w.ts s)

-- The specification: the value of the last write of the key with no later time than asked for.
abbrev pub last_write : Str → ℤ → List Write → Option Str
last_write k ts [] = none
last_write k ts (w ∷ ws) =
    later (last_write k ts ws) (if str_beq w.k k && leb_ℤ w.ts ts then some w.v else none)

abbrev pub AllFrom : ℤ → List Write → Type 0
AllFrom t [] = Unit
AllFrom t (w ∷ ws) = (t ≤ℤ w.ts) × AllFrom t ws

-- The times never go back.
abbrev pub InOrder : List Write → Type 0
InOrder [] = Unit
InOrder (w ∷ ws) = AllFrom w.ts ws × InOrder ws

-- The timed values that the writes append for a key.
abbrev values_of : Str → List Write → List TimedValue
values_of k [] = []
values_of k (w ∷ ws) =
    if str_beq w.k k then record { ts = w.ts; v = w.v } ∷ values_of k ws else values_of k ws

abbrev AllSince : ℤ → List TimedValue → Type 0
AllSince t [] = Unit
AllSince t (x ∷ l) = (t ≤ℤ x.ts) × AllSince t l

abbrev Ascending : List TimedValue → Type 0
Ascending [] = Unit
Ascending (x ∷ l) = AllSince x.ts l × Ascending l

values_of-AllSince :
    (k : Str) (t : ℤ) (ws : List Write) → AllFrom t ws → AllSince t (values_of k ws)
values_of-AllSince k t [] h = tt
values_of-AllSince k t (w ∷ ws) h = ground (arith, values_of-AllSince k t ws h.1)

values_of-Ascending : (k : Str) (ws : List Write) → InOrder ws → Ascending (values_of k ws)
values_of-Ascending k [] h = tt
values_of-Ascending k (w ∷ ws) h =
    ground (arith, values_of-Ascending k ws h.1, values_of-AllSince k w.ts ws h.0)

AllSince-at :
    (t : ℤ) (l : List TimedValue) (i : ℕ) {x : TimedValue}
    → AllSince t l
    → get_elem? l i ≡ some x
    → t ≤ℤ x.ts
AllSince-at t [] i h e = cc
AllSince-at t (y ∷ l) zero h e = ground arith
AllSince-at t (y ∷ l) (suc i) h e = AllSince-at t l i h.1 e

Ascending-at :
    (l : List TimedValue) (i j : ℕ) {x y : TimedValue}
    → Ascending l
    → i ≤ j
    → get_elem? l i ≡ some x
    → get_elem? l j ≡ some y
    → x.ts ≤ℤ y.ts
Ascending-at [] i j h le p q = cc
Ascending-at (z ∷ l) zero zero h le p q = ground arith
Ascending-at (z ∷ l) zero (suc j) h le p q = ground (arith, AllSince-at z.ts l j h.0 q)
Ascending-at (z ∷ l) (suc i) zero h le p q = absurd (omega arith)
Ascending-at (z ∷ l) (suc i) (suc j) h le p q = Ascending-at l i j h.1 (omega arith) p q

Ascending-IsMonotone :
    (tv : TimedValue) (l : List TimedValue) → Ascending l → IsMonotone (before tv) l
Ascending-IsMonotone tv l h i j a b le p q e = ground (arith, Ascending-at l i j h le p q)

-- What `get` answers from the list of a key.
abbrev answer : ℤ → List TimedValue → Option Str
answer ts l = Option.map (λ x. x.v) (last_kept (before (record { ts = ts; v = [] })) l)

entry-ok :
    (l : List TimedValue) (n : ℕ)
    → n ≤ length l
    → (if ltb 0 n
        then (do tv ← or_raise (get_elem? l (n - 1)) index_error; ok (some tv.v))
        else ok none)
      ≡ ok (Option.map (λ x. x.v) (entry_before l n))
entry-ok l zero h = refl
entry-ok l (suc n) h = let (x, e) = get_elem?-some l n (omega arith) in ground (arith, e)

get-answer :
    (k : Str) (ts : ℤ) (s : KvStore)
    → Ascending (or_empty (lookup k s.d))
    → get k ts s ≡ ok (answer ts (or_empty (lookup k s.d)))
unfolding get
get-answer k ts s h = elim (Option-cases (lookup k s.d)) [
  | inl e ↦ rw (e, get)
  | inr (l, e) ↦
      let asc : Ascending l = subst (λ o. Ascending (or_empty o)) e h in
      let above = before (record { ts = ts; v = [] }) in
      let splits =
        bisect_right-Splits above l (Ascending-IsMonotone (record { ts = ts; v = [] }) l asc) in
      rw (e, get)
        (entry-ok l (bisect_right above l) splits.bounded
          ∙ rw (entry_before-Splits above l _ splits))
]

answer-values_of :
    (k : Str) (ts : ℤ) (ws : List Write) → answer ts (values_of k ws) ≡ last_write k ts ws
answer-values_of k ts [] = refl
answer-values_of k ts (w ∷ ws) = ground (arith, answer-values_of k ts ws)

lookup-append_to :
    (k j : Str) (tv : TimedValue) (d : Dict Str (List TimedValue))
    → or_empty (lookup j (append_to k tv d))
      ≡ (if str_beq k j then or_empty (lookup j d) ++ tv ∷ [] else or_empty (lookup j d))
unfolding append_to
lookup-append_to k j tv d =
    ground (arith, lookup-insert k j (or_empty (lookup k d) ++ tv ∷ []) d, str_beq_iff k j)

lookup-set_all :
    (k : Str) (ws : List Write) (s : KvStore)
    → or_empty (lookup k (set_all ws s).d) ≡ or_empty (lookup k s.d) ++ values_of k ws
unfolding set_all set
lookup-set_all k [] s = sym (append-nil _)
lookup-set_all k (w ∷ ws) s = ground (
  arith,
  lookup-set_all k ws (set w.k w.v w.ts s),
  lookup-append_to w.k k (record { ts = w.ts; v = w.v }) s.d,
  append_assoc (or_empty (lookup k s.d)) (record { ts = w.ts; v = w.v } ∷ []) (values_of k ws),
)

-- After writes whose times never go back, `get` answers with the value of the last write of the key
-- that is no later than the time asked for, and with none if there is no such write.
pub get-set_all :
    (ws : List Write) (k : Str) (ts : ℤ)
    → InOrder ws
    → get k ts (set_all ws empty) ≡ ok (last_write k ts ws)
unfolding lookup
get-set_all ws k ts h =
    let stored : or_empty (lookup k (set_all ws empty).d) ≡ values_of k ws =
      lookup-set_all k ws empty in
    get-answer k ts (set_all ws empty) (rw stored (values_of-Ascending k ws h))
    ∙ rw stored (ap ok (answer-values_of k ts ws))
