-- ===== src/Calculator/Expression.antt =====
-- The expressions that `calculate` is documented to take, with their spaces, their text and their
-- values: an independent description.
use code_recipes.Common.{ℕ, zero, suc, Bool, true, ◌&&◌, [], ◌∷◌}
use code_recipes.Common.Int.{ℤ, pos, ◌+ℤ◌, ◌-ℤ◌}
use code_recipes.Common.Eq.{Str}
use code_recipes.Calculator.Tokens.{is_digit, int_from}

-- A number is its first digit and the others. `sp` counts the spaces before a part.
mutual
  pub data Term : Type 0 where
    number : ℕ → ℕ → Str → Term
    bracket : ℕ → Expr → ℕ → Term

  pub data Expr : Type 0 where
    term : Term → Expr
    negate : ℕ → Term → Expr
    add : Expr → ℕ → Term → Expr
    subtract : Expr → ℕ → Term → Expr

abbrev pub spaces : ℕ → Str → Str
spaces zero rest = rest
spaces (suc n) rest = b' ' ∷ spaces n rest

abbrev pub chars : Str → Str → Str
chars [] rest = rest
chars (c ∷ cs) rest = c ∷ chars cs rest

-- The text of an expression, before `rest`.
unfoldable mutual
  pub show_term : Term → Str → Str
  show_term (number sp c cs) rest = spaces sp (c ∷ chars cs rest)
  show_term (bracket sp e sp') rest = spaces sp (b'(' ∷ show_expr e (spaces sp' (b')' ∷ rest)))

  pub show_expr : Expr → Str → Str
  show_expr (term t) rest = show_term t rest
  show_expr (negate sp t) rest = spaces sp (b'-' ∷ show_term t rest)
  show_expr (add e sp t) rest = show_expr e (spaces sp (b'+' ∷ show_term t rest))
  show_expr (subtract e sp t) rest = show_expr e (spaces sp (b'-' ∷ show_term t rest))

unfoldable mutual
  pub value_term : Term → ℤ
  value_term (number sp c cs) = pos (int_from 0 (c ∷ cs))
  value_term (bracket sp e sp') = value e

  pub value : Expr → ℤ
  value (term t) = value_term t
  value (negate sp t) = pos 0 -ℤ value_term t
  value (add e sp t) = value e +ℤ value_term t
  value (subtract e sp t) = value e -ℤ value_term t

abbrev pub all_digits : Str → Bool
all_digits [] = true
all_digits (c ∷ cs) = is_digit c && all_digits cs

-- The numbers consist of digits.
unfoldable mutual
  pub numeric_term : Term → Bool
  numeric_term (number sp c cs) = is_digit c && all_digits cs
  numeric_term (bracket sp e sp') = numeric e

  pub numeric : Expr → Bool
  numeric (term t) = numeric_term t
  numeric (negate sp t) = numeric_term t
  numeric (add e sp t) = numeric e && numeric_term t
  numeric (subtract e sp t) = numeric e && numeric_term t
