-- ===== src/Calculator/Tests.antt =====
-- Runs of `calculate` on texts of the tests in python/calculator.py, and the theorem at one.
use code_recipes.Common.{◌≡◌, ◌≢◌, refl, [], ◌∷◌}
use code_recipes.Common.Int.{negsuc, ◌+ℤ◌, ◌-ℤ◌}
use code_recipes.Common.Eq.{Str}
use code_recipes.Common.Result.{ok, err}
use code_recipes.Calculator.Tokens.{out_of_fuel, int_from}
use code_recipes.Calculator.Stack.{calculate}
use code_recipes.Calculator.Expression.{
  Expr, add, subtract, negate, term, bracket, number, spaces, show_expr, value, numeric,
}
use code_recipes.Calculator.Evaluates.{calculate-show_expr}
use code_recipes.Calculator.Terminates.{calculate-ends}

-- " -(2 + 13) - 7"
abbrev sample : Expr
sample =
    subtract (negate 1 (bracket 0 (add (term (number 0 b'2' [])) 1 (number 1 b'1' (b'3' ∷ []))) 0))
      1 (number 1 b'7' [])

sample_text :
    show_expr sample []
    ≡ b' ' ∷ b'-' ∷ b'(' ∷ b'2' ∷ b' ' ∷ b'+' ∷ b' ' ∷ b'1' ∷ b'3' ∷ b')' ∷ b' ' ∷ b'-' ∷ b' '
      ∷ b'7' ∷ []
unfolding show_expr
sample_text = refl

calculate-show_expr_example : calculate (show_expr sample (spaces 2 [])) ≡ ok (negsuc 21)
unfolding numeric value ◌+ℤ◌ ◌-ℤ◌ int_from
calculate-show_expr_example = calculate-show_expr sample 2 refl

abbrev unbalanced : Str
unbalanced = b'1' ∷ b')' ∷ []

calculate-ends_example : calculate unbalanced ≢ err out_of_fuel
calculate-ends_example = calculate-ends unbalanced
