-- ===== src/BookMyShow/Construct.antt =====
-- A new show has all its seats.
use code_recipes.Common.{
  ℕ, zero, suc, ◌+◌, ◌-◌, ◌*◌, ◌/◌, ◌≤◌, ◌<◌, ◌≡◌, refl, ap, arith, ltb, ◌==◌, ◌&&◌, true, false,
  Bool-cases, inl, inr,
}
use code_recipes.Common.Result.{ok}
use code_recipes.BookMyShow.Tree.{Info, Segment, leaf, node, fresh, construct}
use code_recipes.BookMyShow.Booking.{new}
use code_recipes.BookMyShow.Rows.{seats_before}
use code_recipes.BookMyShow.Shows.{Fits, Shows, row, rows}

seats_before_full : (m p : ℕ) → seats_before (λ _. m) p ≡ m * p
unfolding seats_before
seats_before_full m zero = omega arith
seats_before_full m (suc p) = omega (arith, seats_before_full m p)

times-rest : (m l d r : ℕ) → l + d ≡ r → m * d + m * l ≡ m * r
times-rest m l d r h = rw (← h) (omega arith)

full-Fits :
    (m : ℕ) (i : Info)
    → i.l < i.r
    → i.max_row_seats ≡ m
    → i.sum_row_seats ≡ m * (i.r - i.l)
    → Fits (λ _. m) i i.l i.r
full-Fits m i some_row most total = record {
  from = refl;
  to = refl;
  some_row = some_row;
  most = λ p a b. omega arith;
  total = omega (
    arith,
    seats_before_full m i.l,
    seats_before_full m i.r,
    times-rest m i.l (i.r - i.l) i.r (omega arith),
  );
}

construct-node :
    (fuel m : ℕ) (i : Info) (left right : Segment)
    → i.l + 1 < i.r
    → construct fuel m (fresh m i.l ((i.l + i.r) / 2)) ≡ ok left
    → construct fuel m (fresh m ((i.l + i.r) / 2) i.r) ≡ ok right
    → construct (suc fuel) m i ≡ ok (node i left right)
unfolding construct
construct-node fuel m i left right more e e' =
    let a : (i.l == (i.l + i.r) / 2) ≡ false = ground arith in
    let b : (ltb ((i.l + i.r) / 2) i.r && ltb i.l ((i.l + i.r) / 2)) ≡ true = ground arith in
    rw (a, b, e, e')

construct-leaf : (fuel m : ℕ) (i : Info) → i.r ≡ suc i.l → construct (suc fuel) m i ≡ ok (leaf i)
unfolding construct
construct-leaf fuel m i one = let a : (i.l == (i.l + i.r) / 2) ≡ true = ground arith in rw a

construct-Shows :
    (fuel m : ℕ) (i : Info)
    → i.l < i.r
    → i.r - i.l ≤ fuel
    → i.max_row_seats ≡ m
    → i.sum_row_seats ≡ m * (i.r - i.l)
    → (t : Segment) × (construct fuel m i ≡ ok t) × Shows (λ _. m) t i.l i.r
construct-Shows zero m i some_row enough most total = absurd (omega arith)
construct-Shows (suc fuel) m i some_row enough most total = elim (Bool-cases (ltb (i.l + 1) i.r)) [
  | inr one ↦
      let last : i.r ≡ suc i.l = ground arith in
      (
        leaf i,
        construct-leaf fuel m i last,
        row i i.l i.r last most (full-Fits m i some_row most total),
      )
  | inl more ↦
      let (left, e, shown) =
        construct-Shows fuel m (fresh m i.l ((i.l + i.r) / 2)) (ground arith) (ground arith) refl
          refl in
      let (right, e', shown') =
        construct-Shows fuel m (fresh m ((i.l + i.r) / 2) i.r) (ground arith) (ground arith) refl
          refl in
      (
        node i left right,
        construct-node fuel m i left right (ground arith) e e',
        rows i left right i.l ((i.l + i.r) / 2) i.r shown shown'
            (full-Fits m i some_row most total),
      )
]

-- A new show of some rows has all its seats.
pub new-Shows :
    (n m : ℕ)
    → 0 < n
    → (t : Segment) × (new n m ≡ ok (record { root = t; m = m })) × Shows (λ _. m) t 0 n
unfolding new
new-Shows n m some_row =
    let i : Info = record { l = 0; r = n; max_row_seats = m; sum_row_seats = m * n } in
    let (t, e, shown) =
      construct-Shows (n + 1) m i some_row (omega arith) refl (ap (λ x. m * x) (omega arith)) in
    (t, rw e, shown)
