-- ===== src/BookMyShow/Refines.antt =====
-- `BookMyShow` keeps a plain record of the seats left in each row.
use code_recipes.Common.{
  ℕ, suc, ◌-◌, ◌<◌, ◌≡◌, refl, arith, leb, ◌==◌, Bool, true, false, Bool-cases, inl, inr, List, [],
  ◌∷◌, ◌∙◌,
}
use code_recipes.Common.Result.{ok, err, ◌>>=◌}
use code_recipes.BookMyShow.Tree.{
  Run, Info, Segment, leaf, node, info, can_scatter, assertion_error,
}
use code_recipes.BookMyShow.Tree
use code_recipes.BookMyShow.Booking.{BookMyShow, new, gather, scatter}
use code_recipes.BookMyShow.Rows.{Rows, seats_before, seat_in, drain}
use code_recipes.BookMyShow.Shows.{Shows, row, spent, rows}
use code_recipes.BookMyShow.Gather.{NoFit, FirstFit, gather_lem}
use code_recipes.BookMyShow.Scatter.{Open, scatter_lem}
use code_recipes.BookMyShow.Allowed.{has_seats, can_scatter_lem}
use code_recipes.BookMyShow.Construct.{new-Shows}

-- A call, and its answer.
pub data Op : Type 0 where
  gathers : ℕ → ℕ → Op
  scatters : ℕ → ℕ → Op

pub data Answer : Type 0 where
  seats : List ℕ → Answer
  done : Bool → Answer

unfoldable pub step : Op → BookMyShow → Run (Answer × BookMyShow)
step (gathers k max_row) b = gather k max_row b >>= λ g. ok (seats g.0, g.1)
step (scatters k max_row) b = scatter k max_row b >>= λ g. ok (done g.0, g.1)

unfoldable pub run : List Op → BookMyShow → Run (List Answer × BookMyShow)
unfolding step
run [] b = ok ([], b)
run (op ∷ ops) b = do s ← step op b; rest ← run ops s.1; ok (s.0 ∷ rest.0, rest.1)

-- The specification, on `n` rows of `m` seats: `gather` books in the first row that has enough seats,
-- `scatter` takes from the first rows on if they have enough.
pub data Books (n m : ℕ) (f : Rows) : Op → Answer → Rows → Type 0 where
  one_row :
      (k max_row place : ℕ)
      → FirstFit f k max_row 0 n place
      → Books n m f (gathers k max_row) (seats (place ∷ (m - f place) ∷ [])) (seat_in k place f)
  no_row : (k max_row : ℕ) → NoFit f k max_row 0 n → Books n m f (gathers k max_row) (seats []) f
  first_rows :
      (k max_row : ℕ)
      → has_seats f k max_row 0 n ≡ true
      → Books n m f (scatters k max_row) (done true) (drain k 0 f)
  too_few :
      (k max_row : ℕ)
      → has_seats f k max_row 0 n ≡ false
      → Books n m f (scatters k max_row) (done false) f

pub data History (n m : ℕ) : Rows → List Op → List Answer → Rows → Type 0 where
  start : (f : Rows) → History n m f [] [] f
  call :
      (f f' f'' : Rows) (op : Op) (ops : List Op) (a : Answer) (as' : List Answer)
      → Books n m f op a f'
      → History n m f' ops as' f''
      → History n m f (op ∷ ops) (a ∷ as') f''

-- A call asks for one seat or more. The row after those that a `scatter` may use has a seat left, or
-- there is none.
abbrev pub Asks : ℕ → Rows → Op → Type 0
Asks n f (gathers k max_row) = 0 < k
Asks n f (scatters k max_row) = (0 < k) × Open f max_row n

abbrev pub AllAsk : ℕ → ℕ → Rows → List Op → Type 0
AllAsk n m f [] = Unit
AllAsk n m f (op ∷ ops) =
    Asks n f op × ((a : Answer) (f' : Rows) → Books n m f op a f' → AllAsk n m f' ops)

abbrev Steps : ℕ → ℕ → Rows → Op → Segment → Type 0
Steps n m f op t =
    (a : Answer) × (f' : Rows) × (t' : Segment) × Books n m f op a f'
    × (step op (record { root = t; m = m }) ≡ ok (a, record { root = t'; m = m }))
    × Shows f' t' 0 n

step-Books :
    (n m : ℕ) (f : Rows) (op : Op) (t : Segment) → Shows f t 0 n → Asks n f op → Steps n m f op t
unfolding step gather scatter
step-Books n m f (gathers k max_row) t shown some_k =
    elim (gather_lem f k max_row m t 0 n shown some_k (omega arith)) [
      | inl (place, t', fit, e, shown') ↦ (
        seats (place ∷ (m - f place) ∷ []),
        seat_in k place f,
        t',
        Books.one_row k max_row place fit,
        rw e,
        shown',
      )
      | inr (missed, e) ↦ (seats [], f, t, Books.no_row k max_row missed, rw e, shown)
    ]
step-Books n m f (scatters k max_row) t shown (some_k, open_row) =
    elim (Bool-cases (has_seats f k max_row 0 n)) [
      | inl enough ↦
          let (t', e, shown') =
            scatter_lem f max_row t k 0 n shown (omega arith) (ground arith) (ground arith)
              open_row in
          let yes_can = can_scatter_lem f k max_row t 0 n shown some_k (omega arith) ∙ enough in
          (done true, drain k 0 f, t', Books.first_rows k max_row enough, rw (yes_can, e), shown')
      | inr few ↦
          let no_can = can_scatter_lem f k max_row t 0 n shown some_k (omega arith) ∙ few in
          (done false, f, t, Books.too_few k max_row few, rw no_can, shown)
    ]

run-History :
    (n m : ℕ) (f : Rows) (ops : List Op) (t : Segment)
    → Shows f t 0 n
    → AllAsk n m f ops
    → (as' : List Answer) × (f' : Rows) × (b : BookMyShow) × (run ops (record { root = t; m = m })
        ≡ ok (as', b))
      × History n m f ops as' f'
unfolding run
run-History n m f [] t shown asked = ([], f, record { root = t; m = m }, refl, History.start f)
run-History n m f (op ∷ ops) t shown (asked, later) =
    let (a, f', t', books, e, shown') = step-Books n m f op t shown asked in
    let (as', f'', b, e', history) = run-History n m f' ops t' shown' (later a f' books) in
    (
      a ∷ as',
      f'',
      b,
      run-cons op ops a as' (record { root = t; m = m }) (record { root = t'; m = m }) b e e',
      History.call f f' f'' op ops a as' books history,
    )
  where
    run-cons :
        (op : Op) (ops : List Op) (a : Answer) (as' : List Answer) (b b' b'' : BookMyShow)
        → step op b ≡ ok (a, b')
        → run ops b' ≡ ok (as', b'')
        → run (op ∷ ops) b ≡ ok (a ∷ as', b'')
    run-cons op ops a as' b b' b'' e e' = rw (e, e')

-- A new show of one row or more, after any calls that ask for one seat or more, and where the row
-- after those that a `scatter` may use has a seat left or is none, has raised nothing, and has
-- answered each call as the specification does: `gather` with the first row that has enough seats and
-- its first free seat, `scatter` by taking seats from the first rows on.
pub book_my_show_refines_rows :
    (n m : ℕ) (ops : List Op)
    → 0 < n
    → AllAsk n m (λ _. m) ops
    → (as' : List Answer) × (f : Rows) × (b : BookMyShow) × ((new n m >>= run ops) ≡ ok (as', b))
      × History n m (λ _. m) ops as' f
book_my_show_refines_rows n m ops some_row asked =
    let (t, e, shown) = new-Shows n m some_row in
    let (as', f, b, e', history) = run-History n m (λ _. m) ops t shown asked in
    (as', f, b, rw (e, e'), history)

has_seats-all :
    (f : Rows) (k max_row n : ℕ)
    → k ≡ seats_before f n
    → k ≡ seats_before f (suc max_row)
    → has_seats f k max_row 0 n ≡ true
unfolding seats_before
has_seats-all f k max_row n all allowed = ground arith

scatter-refused :
    (k max_row : ℕ) (i : Info) (left right : Segment)
    → (k == i.sum_row_seats) ≡ true
    → leb (i.r - 1) max_row ≡ false
    → Tree.scatter k max_row (node i left right) ≡ err assertion_error
unfolding Tree.scatter
scatter-refused k max_row i left right all beyond = rw (all, beyond)

scatter-refused_all :
    (f : Rows) (t : Segment) (k max_row n : ℕ)
    → Shows f t 0 n
    → k ≡ seats_before f n
    → suc max_row < n
    → Tree.scatter k max_row t ≡ err assertion_error
unfolding seats_before
scatter-refused_all f (leaf i) k max_row n (row _ _ _ e most fits) all beyond = absurd (omega arith)
scatter-refused_all f (node i left right) k max_row n (spent _ _ _ _ _ most total fits) all beyond =
    scatter-refused k max_row i left right (ground (arith, fits.total)) (ground (arith, fits.to))
scatter-refused_all f (node i left right) k max_row n (rows _ _ _ _ mid _ a b fits) all beyond =
    scatter-refused k max_row i left right (ground (arith, fits.total)) (ground (arith, fits.to))

-- A booking with as many seats left, one or more, as a `scatter` asks for, all of them in the rows
-- that it may use, while there is a row after those: `scatter` raises an `AssertionError`.
pub scatter_raises :
    (f : Rows) (b : BookMyShow) (k max_row n : ℕ)
    → Shows f b.root 0 n
    → 0 < k
    → k ≡ seats_before f n
    → k ≡ seats_before f (suc max_row)
    → suc max_row < n
    → scatter k max_row b ≡ err assertion_error
unfolding scatter
scatter_raises f b k max_row n shown some_k all allowed beyond =
    let can : can_scatter k max_row b.root ≡ true =
      can_scatter_lem f k max_row b.root 0 n shown some_k (omega arith)
      ∙ has_seats-all f k max_row n all allowed in
    rw (can, scatter-refused_all f b.root k max_row n shown all beyond)
