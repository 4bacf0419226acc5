-- ===== src/Ninjias/Links.antt =====
-- python/doubly_linked_list.py: the fields of all nodes by their addresses, a field `None` where it is none;
-- and `ninjas_bruteforce`, whose node of number `i` has the address `i`.
use code_recipes.Common.{ℕ, zero, suc, ◌-◌, ◌==◌, if◌then◌else◌, Option, none, some}
use code_recipes.Common.Result.{Result, ok, err}

pub record Links : Type 0 where
  pub prev : ℕ → Option ℕ
  pub next : ℕ → Option ℕ
  pub t : ℕ → Option ℕ

abbrev pub put : (ℕ → Option ℕ) → ℕ → Option ℕ → ℕ → Option ℕ
put field a v b = if a == b then v else field b

abbrev pub set_prev : ℕ → Option ℕ → Links → Links
set_prev a v s = record s { prev = put s.prev a v }

abbrev pub set_next : ℕ → Option ℕ → Links → Links
set_next a v s = record s { next = put s.next a v }

-- `DoubleLinks(t)` at a new address
abbrev pub new_node : ℕ → ℕ → Links → Links
new_node a t s = record {
  prev = put s.prev a none;
  next = put s.next a none;
  t = put s.t a (some t);
}

-- `node.prev = v`, where the node may be `None` and is left alone then
abbrev pub relink_prev : Option ℕ → Option ℕ → Links → Links
relink_prev none v s = s
relink_prev (some a) v s = set_prev a v s

-- `remove`, with `prev` and `next` of the node: the node it returns, and the nodes it leaves.
abbrev pub unlinked : Option ℕ → Option ℕ → Links → Option ℕ × Links
unlinked (some p) next s = (some p, relink_prev next (some p) (set_next p next s))
unlinked none next s = (next, relink_prev next none s)

abbrev pub remove : ℕ → Links → Option ℕ × Links
remove a s = unlinked (s.prev a) (s.next a) s

-- `insert`
abbrev pub insert : ℕ → ℕ → Links → ℕ × Links
insert a dl s = (
  dl,
  relink_prev (s.next a) (some dl)
      (set_next dl (s.next a) (set_prev dl (some a) (set_next a (some dl) s))),
)

abbrev get_data : ℕ → Links → Option ℕ
get_data a s = s.t a

-- `__iter__` gives a `DoubleLinksIter`, which is the node where it stands.
abbrev iter : ℕ → Option ℕ
iter a = some a

pub data Error : Type 0 where
  stop_iteration attribute_error out_of_fuel : Error

-- `DoubleLinksIter.__next__`: the value, and where the iterator stands then.
abbrev pub iter_next : Option ℕ → Links → Result Error (Option ℕ × Option ℕ)
iter_next none s = err stop_iteration
iter_next (some a) s = ok (s.t a, s.next a)

-- `for i in range(1, n)`: `count` nodes more, from the tail on.
abbrev pub fill : ℕ → ℕ → Links → Links
fill tail zero s = s
fill tail (suc count) s =
    fill (suc tail) count (insert tail (suc tail) (new_node (suc tail) (suc tail) s)).1

-- The circle is closed: `tail.next = p0` and `p0.prev = tail`.
abbrev pub close : ℕ → Links → Links
close tail s = set_prev 0 (some tail) (set_next tail (some 0) s)

abbrev pub circle_of : ℕ → Links
circle_of n =
    close (n - 1)
      (fill 0 (n - 1) (new_node 0 0 (record { prev = λ a. none; next = λ a. none; t = λ a. none })))

-- One round of the `while` loop at `p`, with its `next` and with the rounds after a removal.
abbrev pub kill_round :
    ℕ → Links → Option ℕ → (ℕ → Result Error (Option ℕ × Links)) → Result Error (Option ℕ × Links)
kill_round p s none go_on = ok (some p, s)
kill_round p s (some a) go_on = (let rest = go_on a in if a == p then ok (some p, s) else rest)

unfoldable pub kill_loop : ℕ → Option ℕ → Links → Result Error (Option ℕ × Links)
kill_loop zero p s = err out_of_fuel
kill_loop (suc fuel) none s = ok (none, s)
kill_loop (suc fuel) (some p) s =
    kill_round p s (s.next p) (λ a. let left = (remove a s).1 in kill_loop fuel (left.next p) left)

-- `p.get_data()`
abbrev pub data_of : Result Error (Option ℕ × Links) → Result Error (Option ℕ)
data_of (err e) = err e
data_of (ok (none, s)) = err attribute_error
data_of (ok (some p, s)) = ok (s.t p)

unfoldable pub ninjas_bruteforce : ℕ → ℕ → Result Error (Option ℕ)
unfolding kill_loop
ninjas_bruteforce fuel n = data_of (kill_loop fuel (some 0) (circle_of n))
