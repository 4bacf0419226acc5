-- ===== src/BookMyShow/Tests.antt =====
-- The run at the end of python/segment-tree.py, and the theorems at concrete shows.
use code_recipes.Common.{◌≡◌, refl, arith, ◌==◌, if◌then◌else◌, true, List, [], ◌∷◌}
use code_recipes.Common.Result.{ok, err, ◌>>=◌}
use code_recipes.BookMyShow.Tree.{Info, Segment, leaf, node, assertion_error, construct}
use code_recipes.BookMyShow.Tree
use code_recipes.BookMyShow.Booking.{BookMyShow, new, gather, scatter}
use code_recipes.BookMyShow.Rows.{Rows, seats_before}
use code_recipes.BookMyShow.Shows.{Shows, rows, row-Shows}
use code_recipes.BookMyShow.Refines.{
  Op, gathers, scatters, Answer, seats, done, step, run, AllAsk, History, book_my_show_refines_rows,
  scatter_raises,
}

abbrev calls : List Op
calls = gathers 4 0 ∷ gathers 2 0 ∷ scatters 5 1 ∷ []

answered :
    (new 2 5 >>= run calls >>= λ s. ok s.0) ≡ ok (seats (0 ∷ 0 ∷ []) ∷ seats [] ∷ done true ∷ [])
unfolding new run step gather scatter construct Tree.gather Tree.scatter Tree.can_scatter
answered = refl

calls-AllAsk : AllAsk 2 5 (λ _. 5) calls
calls-AllAsk = (
  omega arith,
  λ a f h. (omega arith, λ a f h. ((omega arith, λ x. absurd (omega arith)), λ a f h. tt)),
)

book_my_show_refines_rows_example :
    (as' : List Answer) × (f : Rows) × (b : BookMyShow) × ((new 2 5 >>= run calls) ≡ ok (as', b))
    × History 2 5 (λ _. 5) calls as' f
book_my_show_refines_rows_example = book_my_show_refines_rows 2 5 calls (omega arith) calls-AllAsk

-- Two seats left in row 0, and none in row 1.
abbrev left_over : Rows
left_over p = if p == 0 then 2 else 0

abbrev row_0 : Info
row_0 = record { l = 0; r = 1; max_row_seats = 2; sum_row_seats = 2 }

abbrev row_1 : Info
row_1 = record { l = 1; r = 2; max_row_seats = 0; sum_row_seats = 0 }

abbrev both : Info
both = record { l = 0; r = 2; max_row_seats = 2; sum_row_seats = 2 }

abbrev booked : BookMyShow
booked = record { root = node both (leaf row_0) (leaf row_1); m = 5 }

booked-Shows : Shows left_over booked.root 0 2
unfolding seats_before
booked-Shows =
    rows both (leaf row_0) (leaf row_1) 0 1 2 (row-Shows left_over row_0 0 refl refl refl refl)
      (row-Shows left_over row_1 1 refl refl refl refl)
      (record {
        from = refl;
        to = refl;
        some_row = omega arith;
        most = λ p a b. ground arith;
        total = refl;
      })

scatter_raises_example : scatter 2 0 booked ≡ err assertion_error
unfolding seats_before
scatter_raises_example =
    scatter_raises left_over booked 2 0 2 booked-Shows (omega arith) refl refl (omega arith)
