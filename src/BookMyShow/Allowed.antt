-- ===== src/BookMyShow/Allowed.antt =====
-- `can_scatter` on a tree that shows rows.
use code_recipes.Common.{
  ℕ, suc, ◌+◌, ◌-◌, ◌≤◌, ◌<◌, ◌≡◌, refl, arith, ltb, leb, ◌&&◌, Bool, if◌then◌else◌, true, false,
  Bool-cases, inl, inr, ◌∙◌,
}
use code_recipes.BookMyShow.Tree.{Info, Segment, leaf, node, info, can_scatter}
use code_recipes.BookMyShow.Rows.{Rows, seats_before, seats_before_mono}
use code_recipes.BookMyShow.Shows.{Shows, row, spent, rows, Shows-Fits}

-- There are `k` seats from row `l` on in the rows before `r` and up to `max_row`.
abbrev pub has_seats : Rows → ℕ → ℕ → ℕ → ℕ → Bool
has_seats f k max_row l r =
    leb (k + seats_before f l) (seats_before f r)
    && leb (k + seats_before f l) (seats_before f (suc max_row))

pub can_scatter-rows :
    (k max_row : ℕ) (i : Info) (left right : Segment)
    → can_scatter k max_row (node i left right) ≡ (
        if ltb i.sum_row_seats k
        then false
        else if ltb max_row (info left).r
        then can_scatter k max_row left
        else if leb k (info left).sum_row_seats
        then true
        else can_scatter (k - (info left).sum_row_seats) max_row right)
unfolding can_scatter
can_scatter-rows k max_row i left right = refl

pub can_scatter_lem :
    (f : Rows) (k max_row : ℕ) (t : Segment) (l r : ℕ)
    → Shows f t l r
    → 0 < k
    → l ≤ max_row
    → can_scatter k max_row t ≡ has_seats f k max_row l r
unfolding can_scatter
can_scatter_lem f k max_row (leaf i) l r (row _ _ _ e most fits) some_k le =
    ground (arith, fits.total, seats_before_mono f r (suc max_row))
can_scatter_lem f k max_row (node i left right) l r (spent _ _ _ _ _ most total fits) some_k le =
    ground (arith, fits.total)
can_scatter_lem f k max_row (node i left right) l r (rows _ _ _ _ mid _ a b fits) some_k le =
    let fa = Shows-Fits left a in
    let fb = Shows-Fits right b in
    let upper = seats_before_mono f mid r (omega (arith, fb.some_row)) in
    can_scatter-rows k max_row i left right ∙ elim (Bool-cases (ltb max_row mid)) [
      | inl low ↦ ground (
        arith,
        fits.total,
        fa.to,
        upper,
        seats_before_mono f (suc max_row) mid,
        can_scatter_lem f k max_row left l mid a some_k le,
      )
      | inr high ↦ ground (
        arith,
        fits.total,
        fa.to,
        fa.total,
        upper,
        seats_before_mono f mid (suc max_row),
        can_scatter_lem f (k - (info left).sum_row_seats) max_row right mid r b,
      )
    ]
