-- ===== src/BookMyShow/Rows.antt =====
-- The abstract view of a show: how many seats are left in each row.
use code_recipes.Common.{
  ℕ, zero, suc, ◌+◌, ◌-◌, ◌≤◌, ◌<◌, ◌≡◌, refl, arith, ◌==◌, if◌then◌else◌, inl, inr, ◌⊎◌,
}

abbrev pub Rows : Type 0
Rows = ℕ → ℕ

-- The seats left in the rows before row `p`.
unfoldable pub seats_before : Rows → ℕ → ℕ
seats_before f zero = 0
seats_before f (suc p) = seats_before f p + f p

-- Row `row` gives up `k` seats.
abbrev pub seat_in : ℕ → ℕ → Rows → Rows
seat_in k row f p = if p == row then f p - k else f p

-- The rows from `l` on give up `k` seats, each what those before it could not give.
abbrev pub drain : ℕ → ℕ → Rows → Rows
drain k l f p = f p - (k - (seats_before f p - seats_before f l))

le_cases : (p q : ℕ) → p ≤ q → (p ≡ q) ⊎ (p < q)
le_cases p q h = omega arith

pub seats_before_row : (f : Rows) (p q : ℕ) → p < q → seats_before f p + f p ≤ seats_before f q
unfolding seats_before
seats_before_row f p zero h = absurd (omega arith)
seats_before_row f p (suc q) h = elim (le_cases p q (omega arith)) [
  | inl same ↦ rw same (omega arith)
  | inr less ↦ omega (arith, seats_before_row f p q less)
]

pub seats_before_mono : (f : Rows) (p q : ℕ) → p ≤ q → seats_before f p ≤ seats_before f q
seats_before_mono f p q h = elim (le_cases p q h) [
  | inl same ↦ rw same (omega arith)
  | inr less ↦ omega (arith, seats_before_row f p q less)
]

-- Rows that are alike from `l` to `r` have as many seats there.
pub seats_between :
    (f g : Rows) (l r : ℕ)
    → l ≤ r
    → ((p : ℕ) → l ≤ p → p < r → f p ≡ g p)
    → seats_before f r + seats_before g l ≡ seats_before g r + seats_before f l
unfolding seats_before
seats_between f g zero zero h same = refl
seats_between f g (suc l) zero h same = absurd (omega arith)
seats_between f g l (suc r) h same = elim (le_cases l (suc r) h) [
  | inl at_end ↦ rw at_end (omega arith)
  | inr less ↦ omega (
    arith,
    seats_between f g l r (omega arith) (λ p a b. same p a (omega arith)),
    same r (omega arith) (omega arith),
  )
]

seats_before_zero : (p : ℕ) → seats_before (λ _. 0) p ≡ 0
unfolding seats_before
seats_before_zero zero = refl
seats_before_zero (suc p) = omega (arith, seats_before_zero p)

-- Rows without a seat add nothing.
pub seats_before_empty :
    (f : Rows) (l r : ℕ)
    → l ≤ r
    → ((p : ℕ) → l ≤ p → p < r → f p ≡ 0)
    → seats_before f l ≡ seats_before f r
seats_before_empty f l r h none_left =
    omega
      (arith, seats_between f (λ _. 0) l r h none_left, seats_before_zero l, seats_before_zero r)
