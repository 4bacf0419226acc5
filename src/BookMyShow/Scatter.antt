-- ===== src/BookMyShow/Scatter.antt =====
-- `can_scatter` counts the seats of the first rows, and `scatter` takes them from the front.
use code_recipes.Common.{
  ℕ, suc, ◌+◌, ◌-◌, ◌≤◌, ◌<◌, ◌≡◌, refl, arith, ltb, leb, ◌==◌, ◌||◌, true, false, Bool-cases, inl,
  inr, ◌∙◌, subst, sym,
}
use code_recipes.Common.Result.{ok}
use code_recipes.BookMyShow.Tree.{Info, Segment, leaf, node, info, update_seg, take_seats, scatter}
use code_recipes.BookMyShow.Rows.{
  Rows, seats_before, seats_before_row, seats_before_mono, seats_before_empty, drain,
}
use code_recipes.BookMyShow.Shows.{
  Fits, Shows, row, spent, rows, Shows-Fits, Shows-cong, update_seg-Shows, row-Shows, row-total,
}

-- The first row that is not allowed has a seat, or is outside.
abbrev pub Open : Rows → ℕ → ℕ → Type 0
Open f max_row r = suc max_row < r → 0 < f (suc max_row)

abbrev Scatters : Rows → ℕ → ℕ → Segment → ℕ → ℕ → Type 0
Scatters f k max_row t l r =
    (t' : Segment) × (scatter k max_row t ≡ ok t') × Shows (drain k l f) t' l r

drained :
    (f : Rows) (k l r p : ℕ)
    → seats_before f r ≤ k + seats_before f l
    → l ≤ p
    → p < r
    → drain k l f p ≡ 0
drained f k l r p all low h = omega (arith, seats_before_row f p r h, seats_before_mono f l p low)

scatter_leaf :
    (f : Rows) (k max_row : ℕ) (i : Info) (l : ℕ)
    → i.max_row_seats ≡ f l
    → Fits f i l (suc l)
    → l ≤ max_row
    → k + seats_before f l ≤ seats_before f (suc l)
    → Scatters f k max_row (leaf i) l (suc l)
unfolding scatter
scatter_leaf f k max_row i l most fits le enough =
    let total = row-total f i l fits in
    let from = fits.from in
    let to = fits.to in
    let seats : leb k i.sum_row_seats ≡ true = ground (arith, fits.total) in
    let allowed : leb i.l max_row ≡ true = ground arith in
    (
      leaf (take_seats k i),
      rw (seats, allowed),
      row-Shows (drain k l f) (take_seats k i) l from to (omega arith) (omega arith),
    )

-- A segment that gives all it has.
scatter-all :
    (f : Rows) (k max_row : ℕ) (i : Info) (left right : Segment) (l r : ℕ)
    → Fits f i l r
    → k ≡ i.sum_row_seats
    → r ≤ suc max_row
    → Scatters f k max_row (node i left right) l r
unfolding scatter
scatter-all f k max_row i left right l r fits all allowed =
    let last : leb (i.r - 1) max_row ≡ true = ground (arith, fits.to) in
    let same : (k == i.sum_row_seats) ≡ true = ground arith in
    let gone =
      λ (p : ℕ) (low : l ≤ p) (h : p < r). drained f k l r p (omega (arith, fits.total)) low h in
    (
      node (record i { max_row_seats = 0; sum_row_seats = 0 }) left right,
      rw (same, last),
      spent _ left right l r refl refl (record {
        from = fits.from;
        to = fits.to;
        some_row = fits.some_row;
        most = λ p h q. omega (arith, gone p h q);
        total =
            omega (arith, seats_before_empty (drain k l f) l r (omega (arith, fits.some_row)) gone);
      }),
    )

-- Rows after those that are enough keep their seats.
undrained :
    (f : Rows) (k l mid p : ℕ)
    → k + seats_before f l ≤ seats_before f mid
    → mid ≤ p
    → f p ≡ drain k l f p
undrained f k l mid p enough h = omega (arith, seats_before_mono f mid p h)

drained_both :
    (f : Rows) (j k l mid p : ℕ)
    → seats_before f mid ≤ j + seats_before f l
    → j ≤ k
    → l ≤ p
    → p < mid
    → drain j l f p ≡ drain k l f p
drained_both f j k l mid p all le h q =
    drained f j l mid p all h q ∙ sym (drained f k l mid p (omega arith) h q)

drained_right :
    (f : Rows) (whole k l mid p : ℕ)
    → whole + seats_before f l ≡ seats_before f mid
    → seats_before f l ≤ seats_before f mid
    → whole ≤ k
    → mid ≤ p
    → drain (k - whole) mid f p ≡ drain k l f p
drained_right f whole k l mid p total up le h = omega (arith, seats_before_mono f mid p h)

scatter-left :
    (k max_row : ℕ) (i : Info) (left left' right : Segment)
    → (k == i.sum_row_seats) ≡ false
    → (ltb max_row (info left).r || leb k (info left).sum_row_seats) ≡ true
    → scatter k max_row left ≡ ok left'
    → scatter k max_row (node i left right) ≡ ok (update_seg i left' right)
unfolding scatter
scatter-left k max_row i left left' right some_rest inside e = rw (some_rest, inside, e)

scatter-both :
    (k max_row : ℕ) (i : Info) (left left' right right' : Segment)
    → (k == i.sum_row_seats) ≡ false
    → (ltb max_row (info left).r || leb k (info left).sum_row_seats) ≡ false
    → scatter (info left).sum_row_seats max_row left ≡ ok left'
    → scatter (k - (info left).sum_row_seats) max_row right ≡ ok right'
    → scatter k max_row (node i left right) ≡ ok (update_seg i left' right')
unfolding scatter
scatter-both k max_row i left left' right right' some_rest over e e' = rw (some_rest, over, e, e')

-- All seats of a segment are asked for only if all its rows are allowed.
all_allowed :
    (f : Rows) (k max_row l r : ℕ)
    → seats_before f r ≤ k + seats_before f l
    → k + seats_before f l ≤ seats_before f (suc max_row)
    → Open f max_row r
    → r ≤ suc max_row
all_allowed f k max_row l r all allowed open_row = elim (Bool-cases (ltb (suc max_row) r)) [
  | inl beyond ↦
      absurd
        (omega (arith, open_row (ground arith), seats_before_row f (suc max_row) r (ground arith)))
  | inr within ↦ ground arith
]

inside_left :
    (f : Rows) (k max_row l mid s : ℕ)
    → s + seats_before f l ≡ seats_before f mid
    → k + seats_before f l ≤ seats_before f (suc max_row)
    → (ltb max_row mid || leb k s) ≡ true
    → k + seats_before f l ≤ seats_before f mid
inside_left f k max_row l mid s total allowed inside =
    ground (arith, seats_before_mono f (suc max_row) mid)

-- With enough seats in the rows allowed, and one in the next row, `scatter` takes them in order.
pub scatter_lem :
    (f : Rows) (max_row : ℕ) (t : Segment) (k l r : ℕ)
    → Shows f t l r
    → l ≤ max_row
    → k + seats_before f l ≤ seats_before f r
    → k + seats_before f l ≤ seats_before f (suc max_row)
    → Open f max_row r
    → Scatters f k max_row t l r
scatter_lem f max_row (leaf i) k l r (row _ _ _ e most fits) le enough allowed open_row =
    subst (λ x. Scatters f k max_row (leaf i) l x) (sym e)
      (scatter_leaf f k max_row i l most (subst (λ x. Fits f i l x) e fits) le
        (subst (λ x. k + seats_before f l ≤ seats_before f x) e enough))
scatter_lem f max_row (node i left right) k l r (spent _ _ _ _ _ most total fits) le enough allowed
      open_row =
    let all = fits.total in
    scatter-all f k max_row i left right l r fits (omega arith)
      (all_allowed f k max_row l r (omega arith) allowed open_row)
scatter_lem f max_row (node i left right) k l r (rows _ _ _ _ mid _ a b fits) le enough allowed
      open_row =
    let fa = Shows-Fits left a in
    let fb = Shows-Fits right b in
    let in_left = fa.total in
    let in_all = fits.total in
    let outer = fb.some_row in
    elim (Bool-cases (k == i.sum_row_seats)) [
      | inl all ↦
          scatter-all f k max_row i left right l r fits (ground arith)
            (all_allowed f k max_row l r (ground arith) allowed open_row)
      | inr some_rest ↦
          elim (Bool-cases (ltb max_row (info left).r || leb k (info left).sum_row_seats)) [
            | inl inside ↦
                let fewer =
                  inside_left f k max_row l mid (info left).sum_row_seats in_left allowed
                    (ground (arith, fa.to)) in
                let (left', e, shown) =
                  scatter_lem f max_row left k l mid a le fewer allowed
                    (λ h. open_row (omega arith)) in
                (
                  update_seg i left' right,
                  scatter-left k max_row i left left' right some_rest inside e,
                  update_seg-Shows (drain k l f) i left' right l mid r fits.from fits.to shown
                      (Shows-cong (drain k l f) (λ p h q. undrained f k l mid p fewer h) b),
                )
            | inr over ↦
                let whole = (info left).sum_row_seats in
                let (left', e, shown) =
                  scatter_lem f max_row left whole l mid a le (omega arith)
                    (ground (arith, fa.to, seats_before_mono f mid (suc max_row)))
                    (λ h. open_row (omega arith)) in
                let (right', e', shown') =
                  scatter_lem f max_row right (k - whole) mid r b (ground (arith, fa.to))
                    (ground arith) (ground arith) open_row in
                (
                  update_seg i left' right',
                  scatter-both k max_row i left left' right right' some_rest over e e',
                  update_seg-Shows (drain k l f) i left' right' l mid r fits.from fits.to
                      (Shows-cong (drain k l f)
                        (λ p h q. drained_both f whole k l mid p (omega arith) (ground arith) h q)
                        shown)
                      (Shows-cong (drain k l f)
                        (λ p h q.
                          drained_right f whole k l mid p in_left
                            (omega (arith, seats_before_mono f l mid (omega (arith, fa.some_row))))
                            (ground arith) h)
                        shown'),
                )
          ]
    ]
