-- ===== src/BookMyShow/Gather.antt =====
-- `gather` finds the first row with enough seats.
use code_recipes.Common.{
  ℕ, suc, ◌-◌, ◌≤◌, ◌<◌, ◌≡◌, arith, ltb, leb, ◌==◌, true, false, Bool-cases, inl, inr, ◌⊎◌, none,
  some, [], ◌∷◌, ◌∙◌, subst, sym,
}
use code_recipes.Common.Result.{ok}
use code_recipes.BookMyShow.Tree.{
  Info, Segment, leaf, node, info, update_seg, take_seats, Gathered, gathered_left, gathered_right,
  gather,
}
use code_recipes.BookMyShow.Rows.{Rows, seat_in}
use code_recipes.BookMyShow.Shows.{
  Fits, Shows, row, spent, rows, Shows-Fits, Shows-cong, update_seg-Shows, row-Shows, row-total,
}

-- No row from `l` to `r` and up to `max_row` has `k` seats.
abbrev pub NoFit : Rows → ℕ → ℕ → ℕ → ℕ → Type 0
NoFit f k max_row l r = (p : ℕ) → l ≤ p → p < r → p ≤ max_row → f p < k

-- The first such row.
pub record FirstFit (f : Rows) (k max_row l r place : ℕ) : Type 0 where
  pub from : l ≤ place
  pub to : place < r
  pub allowed : place ≤ max_row
  pub enough : k ≤ f place
  pub none_before : (p : ℕ) → l ≤ p → p < place → f p < k

abbrev pub Finds : Rows → ℕ → ℕ → ℕ → Segment → ℕ → ℕ → Type 0
Finds f k max_row m t l r =
    (place : ℕ) × (t' : Segment) × FirstFit f k max_row l r place
    × (gather k max_row m t ≡ ok (some (place ∷ (m - f place) ∷ []), t'))
    × Shows (seat_in k place f) t' l r

abbrev pub Misses : Rows → ℕ → ℕ → ℕ → Segment → ℕ → ℕ → Type 0
Misses f k max_row m t l r = NoFit f k max_row l r × (gather k max_row m t ≡ ok (none, t))

seat_number : (m k : ℕ) {s u : ℕ} → s ≡ u → k ≤ s → m - (s - k) - k ≡ m - u
seat_number m k e h = omega arith

seat_in-others : (f : Rows) (k place p : ℕ) → (p == place) ≡ false → f p ≡ seat_in k place f p
seat_in-others f k place p h = rw h

gather-full :
    (i : Info) (k max_row m : ℕ) (left right : Segment)
    → i.l ≤ max_row
    → i.max_row_seats < k
    → gather k max_row m (node i left right) ≡ ok (none, node i left right)
unfolding gather
gather-full i k max_row m left right le full = ground arith

gather-node :
    (i : Info) (k max_row m : ℕ) (left right : Segment) {g : Gathered}
    → i.l ≤ max_row
    → k ≤ i.max_row_seats
    → gather k max_row m left ≡ ok g
    → gather k max_row m (node i left right)
      ≡ gathered_left max_row i right (gather k max_row m right) g
unfolding gather
gather-node i k max_row m left right le some_seats e =
    let a : leb i.l max_row ≡ true = ground arith in
    let b : ltb i.max_row_seats k ≡ false = ground arith in rw (a, b, e)

gather-node_right :
    (i : Info) (k max_row m : ℕ) (left right : Segment) {g : Gathered}
    → i.l ≤ max_row
    → k ≤ i.max_row_seats
    → gather k max_row m left ≡ ok (none, left)
    → (info right).l ≤ max_row
    → gather k max_row m right ≡ ok g
    → gather k max_row m (node i left right) ≡ ok (gathered_right i left g)
gather-node_right i k max_row m left right le some_seats missed allowed e =
    let open_right : leb (info right).l max_row ≡ true = ground arith in
    gather-node i k max_row m left right le some_seats missed ∙ rw (open_right, e)

gather-node_closed :
    (i : Info) (k max_row m : ℕ) (left right : Segment)
    → i.l ≤ max_row
    → k ≤ i.max_row_seats
    → gather k max_row m left ≡ ok (none, left)
    → max_row < (info right).l
    → gather k max_row m (node i left right) ≡ ok (none, node i left right)
gather-node_closed i k max_row m left right le some_seats missed closed =
    let shut : leb (info right).l max_row ≡ false = ground arith in
    gather-node i k max_row m left right le some_seats missed ∙ rw shut

-- The row of a leaf.
gather_leaf :
    (f : Rows) (k max_row m : ℕ) (i : Info) (l : ℕ)
    → i.max_row_seats ≡ f l
    → Fits f i l (suc l)
    → l ≤ max_row
    → Finds f k max_row m (leaf i) l (suc l) ⊎ Misses f k max_row m (leaf i) l (suc l)
unfolding gather
gather_leaf f k max_row m i l most fits le =
    let total = row-total f i l fits in
    let from = fits.from in
    let to = fits.to in
    let open_row : leb i.l max_row ≡ true = ground arith in
    elim (Bool-cases (ltb i.max_row_seats k)) [
      | inl full ↦ inr (λ p a b c. only_row f k l p a b (ground arith), rw (open_row, full))
      | inr some_seats ↦ inl (
        l,
        leaf (take_seats k i),
        record {
          from = omega arith;
          to = omega arith;
          allowed = le;
          enough = ground arith;
          none_before = λ p a b. absurd (omega arith);
        },
        rw (open_row, some_seats, from, seat_number m k total (ground arith)),
        row-Shows (seat_in k l f) (take_seats k i) l from to (ground arith) (ground arith),
      )
    ]
  where
    only_row : (f : Rows) (k l p : ℕ) → l ≤ p → p < suc l → f l < k → f p < k
    only_row f k l p a b h = let same : p ≡ l = omega arith in rw same h

either_half :
    (f : Rows) (k max_row l mid r p : ℕ)
    → NoFit f k max_row l mid
    → NoFit f k max_row mid r
    → l ≤ p
    → p < r
    → p ≤ max_row
    → f p < k
either_half f k max_row l mid r p low high h q c = elim (Bool-cases (ltb p mid)) [
  | inl below ↦ low p h (ground arith) c
  | inr above ↦ high p (ground arith) q c
]

gather-rows :
    (f : Rows) (k max_row m : ℕ) (i : Info) (left right : Segment) (l mid r : ℕ)
    → Shows f left l mid
    → Shows f right mid r
    → Fits f i l r
    → i.l ≤ max_row
    → k ≤ i.max_row_seats
    → Finds f k max_row m left l mid ⊎ Misses f k max_row m left l mid
    → ((mid ≤ max_row) → Finds f k max_row m right mid r ⊎ Misses f k max_row m right mid r)
    → Finds f k max_row m (node i left right) l r ⊎ Misses f k max_row m (node i left right) l r
gather-rows f k max_row m i left right l mid r a b fits le some_seats
      (inl (place, left', fit, e, shown)) in_right =
    let inner = (Shows-Fits left a).some_row in
    let outer = (Shows-Fits right b).some_row in
    inl (
      place,
      update_seg i left' right,
      record {
        from = fit.from;
        to = omega (arith, fit.to);
        allowed = fit.allowed;
        enough = fit.enough;
        none_before = fit.none_before;
      },
      gather-node i k max_row m left right le some_seats e,
      update_seg-Shows (seat_in k place f) i left' right l mid r fits.from fits.to shown (
          Shows-cong (seat_in k place f)
            (λ p h q. seat_in-others f k place p (ground (arith, fit.to))) b),
    )
gather-rows f k max_row m i left right l mid r a b fits le some_seats (inr (missed, e)) in_right =
    let inner = (Shows-Fits left a).some_row in
    let outer = (Shows-Fits right b).some_row in
    let at_mid = (Shows-Fits right b).from in
    elim (Bool-cases (leb mid max_row)) [
      | inr closed ↦ inr (
        λ p h q c. missed p h (ground arith) c,
        gather-node_closed i k max_row m left right le some_seats e (ground arith),
      )
      | inl allowed ↦ elim (in_right (ground arith)) [
        | inr (missed', e') ↦ inr (
          λ p h q c. either_half f k max_row l mid r p missed missed' h q c,
          gather-node_right i k max_row m left right le some_seats e (ground arith) e',
        )
        | inl (place, right', fit, e', shown) ↦ inl (
          place,
          update_seg i left right',
          record {
            from = omega (arith, fit.from);
            to = fit.to;
            allowed = fit.allowed;
            enough = fit.enough;
            none_before = λ p h q.
                either_half f k max_row l mid place p missed (λ x y z w. fit.none_before x y z) h q
                  (omega (arith, fit.allowed));
          },
          gather-node_right i k max_row m left right le some_seats e (ground arith) e',
          update_seg-Shows (seat_in k place f) i left right' l mid r fits.from fits.to
              (Shows-cong (seat_in k place f)
                (λ p h q. seat_in-others f k place p (ground (arith, fit.from))) a)
              shown,
        )
      ]
    ]

pub gather_lem :
    (f : Rows) (k max_row m : ℕ) (t : Segment) (l r : ℕ)
    → Shows f t l r
    → 0 < k
    → l ≤ max_row
    → Finds f k max_row m t l r ⊎ Misses f k max_row m t l r
gather_lem f k max_row m (leaf i) l r (row _ _ _ e most fits) some_k le =
    subst (λ x. Finds f k max_row m (leaf i) l x ⊎ Misses f k max_row m (leaf i) l x) (sym e)
      (gather_leaf f k max_row m i l most (subst (λ x. Fits f i l x) e fits) le)
gather_lem f k max_row m (node i left right) l r (spent _ _ _ _ _ most total fits) some_k le = inr (
  λ p a b c. omega (arith, fits.most p a b),
  gather-full i k max_row m left right (omega (arith, fits.from)) (omega arith),
)
gather_lem f k max_row m (node i left right) l r (rows _ _ _ _ mid _ a b fits) some_k le =
    elim (Bool-cases (ltb i.max_row_seats k)) [
      | inl full ↦ inr (
        λ p h q c. ground (arith, fits.most p h q),
        gather-full i k max_row m left right (omega (arith, fits.from)) (ground arith),
      )
      | inr some_seats ↦
          gather-rows f k max_row m i left right l mid r a b fits (omega (arith, fits.from))
            (ground arith) (gather_lem f k max_row m left l mid a some_k le)
            (λ allowed. gather_lem f k max_row m right mid r b some_k allowed)
    ]
