-- ===== src/BookMyShow/Shows.antt =====
-- When a tree shows the seats left in the rows from `l` to `r`.
use code_recipes.Common.{ℕ, suc, ◌+◌, ◌≤◌, ◌<◌, ◌≡◌, refl, arith, ltb, Bool-cases, inl, inr}
use code_recipes.BookMyShow.Tree.{Info, Segment, leaf, node, info, update_seg}
use code_recipes.BookMyShow.Rows.{Rows, seats_before, seats_between}

-- The numbers of a segment fit its rows. No row has more seats than the maximum.
pub record Fits (f : Rows) (i : Info) (l r : ℕ) : Type 0 where
  pub from : i.l ≡ l
  pub to : i.r ≡ r
  pub some_row : l < r
  pub most : (p : ℕ) → l ≤ p → p < r → f p ≤ i.max_row_seats
  pub total : i.sum_row_seats + seats_before f l ≡ seats_before f r

-- A segment that `scatter` emptied keeps children that say otherwise: nothing looks at them.
pub data Shows (f : Rows) : Segment → ℕ → ℕ → Type 0 where
  row :
      (i : Info) (l r : ℕ) → r ≡ suc l → i.max_row_seats ≡ f l → Fits f i l r → Shows f (leaf i) l r
  spent :
      (i : Info) (left right : Segment) (l r : ℕ)
      → i.max_row_seats ≡ 0
      → i.sum_row_seats ≡ 0
      → Fits f i l r
      → Shows f (node i left right) l r
  rows :
      (i : Info) (left right : Segment) (l mid r : ℕ)
      → Shows f left l mid
      → Shows f right mid r
      → Fits f i l r
      → Shows f (node i left right) l r

pub Shows-Fits : {f : Rows} (t : Segment) {l r : ℕ} → Shows f t l r → Fits f (info t) l r
Shows-Fits (leaf i) (row _ l r e m fits) = fits
Shows-Fits (node i left right) (spent _ _ _ l r m s fits) = fits
Shows-Fits (node i left right) (rows _ _ _ l mid r a b fits) = fits

Fits-cong :
    (f g : Rows) (i : Info) (l r : ℕ)
    → ((p : ℕ) → l ≤ p → p < r → f p ≡ g p)
    → Fits f i l r
    → Fits g i l r
Fits-cong f g i l r same fits =
    let le = fits.some_row in
    record {
      from = fits.from;
      to = fits.to;
      some_row = fits.some_row;
      most = λ p a b. omega (arith, same p a b, fits.most p a b);
      total = omega (arith, seats_between f g l r (omega arith) same, fits.total);
    }

-- Only the rows of the segment matter.
pub Shows-cong :
    {f : Rows} (g : Rows) {t : Segment} {l r : ℕ}
    → ((p : ℕ) → l ≤ p → p < r → f p ≡ g p)
    → Shows f t l r
    → Shows g t l r
Shows-cong {f} g same (row i l r e m fits) =
    row i l r e (omega (arith, m, same l (omega arith) (omega arith)))
      (Fits-cong f g i l r same fits)
Shows-cong {f} g same (spent i left right l r m s fits) =
    spent i left right l r m s (Fits-cong f g i l r same fits)
Shows-cong {f} g same (rows i left right l mid r a b fits) =
    let inner = (Shows-Fits left a).some_row in
    let outer = (Shows-Fits right b).some_row in
    rows i left right l mid r (Shows-cong g (λ p h k. same p h (omega arith)) a)
      (Shows-cong g (λ p h k. same p (omega arith) k) b) (Fits-cong f g i l r same fits)

-- Two shown halves make a shown whole.
pub update_seg-Shows :
    (f : Rows) (i : Info) (left right : Segment) (l mid r : ℕ)
    → i.l ≡ l
    → i.r ≡ r
    → Shows f left l mid
    → Shows f right mid r
    → Shows f (update_seg i left right) l r
update_seg-Shows f i left right l mid r from to a b =
    let fa = Shows-Fits left a in
    let fb = Shows-Fits right b in
    let inner = fa.some_row in
    let outer = fb.some_row in
    rows _ left right l mid r a b (record {
      from = from;
      to = to;
      some_row = omega arith;
      most = λ p h k. elim (Bool-cases (ltb p mid)) [
        | inl low ↦ ground (arith, fa.most p h)
        | inr high ↦ ground (arith, fb.most p)
      ];
      total = omega (arith, fa.total, fb.total);
    })

-- A segment of one row, from its four numbers.
pub row-Shows :
    (f : Rows) (i : Info) (l : ℕ)
    → i.l ≡ l
    → i.r ≡ suc l
    → i.max_row_seats ≡ f l
    → i.sum_row_seats ≡ f l
    → Shows f (leaf i) l (suc l)
unfolding seats_before
row-Shows f i l from to most total = row i l (suc l) refl most (record {
  from = from;
  to = to;
  some_row = omega arith;
  most = λ p a b. only_row f i l p most a b;
  total = omega arith;
})
  where
    only_row :
        (f : Rows) (i : Info) (l p : ℕ)
        → i.max_row_seats ≡ f l
        → l ≤ p
        → p < suc l
        → f p ≤ i.max_row_seats
    only_row f i l p most a b = let same : p ≡ l = omega arith in rw (same, most) (omega arith)

pub row-total : (f : Rows) (i : Info) (l : ℕ) → Fits f i l (suc l) → i.sum_row_seats ≡ f l
unfolding seats_before
row-total f i l fits = omega (arith, fits.total)
