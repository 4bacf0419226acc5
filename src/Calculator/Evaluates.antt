-- ===== src/Calculator/Evaluates.antt =====
-- `calculate` on the text of an expression: the stack machine takes the text of each part off the
-- front and leaves the part's value.
use code_recipes.Common.{
  ℕ, zero, suc, ◌+◌, ◌<◌, ◌≡◌, refl, ap, ◌∙◌, arith, true, false, ◌&&◌, List, [], ◌∷◌, length, some,
}
use code_recipes.Common.Int.{ℤ, pos, ◌+ℤ◌, ◌-ℤ◌}
use code_recipes.Common.Eq.{Str}
use code_recipes.Common.Result.{ok}
use code_recipes.Calculator.Tokens.{
  Token, left, right, plus, minus, is_digit, token_type, skip_spaces, token_at, next_token,
}
use code_recipes.Calculator.Stack.{
  is_num, is_left, op, apply_op, push_num, push_right, push, answer, calculate_loop, calculate,
}
use code_recipes.Calculator.Stack
use code_recipes.Calculator.Expression.{
  Term, bracket, Expr, term, negate, add, subtract, spaces, chars, show_term, show_expr, value_term,
  value, all_digits, numeric_term, numeric,
}
use code_recipes.Calculator.Expression
use code_recipes.Calculator.Steps.{
  stops, stops-spaces, next_token-spaces, next_token-number, Runs, Runs-trans, Runs-token,
  Runs-operator, number_token, ready, length-spaces-chars, push_num-ready, push_num-unary,
}

-- A token is a number of value `v`.
record Counts (tok : Token) (v : ℤ) : Type 0 where
  is_number : is_num tok.t ≡ true
  counts : tok.v ≡ v

-- The text of a term pushes a number of its value.
abbrev TermRuns : Term → Str → List Token → Type 0
TermRuns t rest stack =
    (tok : Token) × Counts tok (value_term t)
    × ((stack' : List Token)
        → push_num stack tok ≡ ok stack'
        → Runs (show_term t rest) stack rest stack')

-- The text of an expression leaves a number of its value.
abbrev ExprRuns : Expr → Str → List Token → Type 0
ExprRuns e rest stack =
    (tok : Token) × Counts tok (value e) × Runs (show_expr e rest) stack rest (tok ∷ stack)

number-Runs :
    (sp c : ℕ) (cs rest : Str) (stack : List Token)
    → (is_digit c && all_digits cs) ≡ true
    → stops rest ≡ true
    → TermRuns (Expression.number sp c cs) rest stack
unfolding push show_term value_term
number-Runs sp c cs rest stack d s = (
  number_token c cs,
  record { is_number = refl; counts = refl },
  λ stack' pushed.
      Runs-token (spaces sp (c ∷ chars cs rest)) rest stack stack' (number_token c cs)
        (length-spaces-chars sp c cs rest)
        (next_token-spaces sp (c ∷ chars cs rest) ∙ next_token-number c cs rest d s) pushed,
)

close-Runs :
    (sp : ℕ) (rest : Str) (stack stack' : List Token) (tok open_token : Token)
    → is_num tok.t ≡ true
    → is_left open_token.t ≡ true
    → push_num stack tok ≡ ok stack'
    → Runs (spaces sp (b')' ∷ rest)) (tok ∷ open_token ∷ stack) rest stack'
unfolding push push_right token_type
close-Runs sp rest stack stack' tok open_token n l pushed =
    Runs-operator sp b')' right rest (tok ∷ open_token ∷ stack) stack' refl refl refl
      (rw (n, l) pushed)

bracket-Runs :
    (sp : ℕ) (e : Expr) (sp' : ℕ) (rest : Str) (stack : List Token)
    → ((rest' : Str) (stack' : List Token)
        → ready stack' ≡ true
        → stops rest' ≡ true
        → ExprRuns e rest' stack')
    → TermRuns (bracket sp e sp') rest stack
unfolding push token_type show_term value_term
bracket-Runs sp e sp' rest stack inner =
    let open_token : Token = record { t = left; v = pos 0; s = b'(' ∷ [] } in
    let rest' = spaces sp' (b')' ∷ rest) in
    let (tok, c, runs) = inner rest' (open_token ∷ stack) refl (stops-spaces sp' b')' rest refl) in
    (
      tok,
      c,
      λ stack' pushed.
          Runs-trans
            (Runs-operator sp b'(' left (show_expr e rest') stack (open_token ∷ stack) refl refl
              refl refl)
            (Runs-trans runs
              (close-Runs sp' rest stack stack' tok open_token c.is_number refl pushed)),
    )

term-Runs :
    (t : Term) (rest : Str) (stack : List Token)
    → ready stack ≡ true
    → TermRuns t rest stack
    → ExprRuns (term t) rest stack
unfolding show_expr value
term-Runs t rest stack r (tok, c, runs) = (tok, c, runs (tok ∷ stack) (push_num-ready tok stack r))

negate-Runs :
    (sp : ℕ) (t : Term) (rest : Str) (stack : List Token)
    → ready stack ≡ true
    → ((stack' : List Token) → TermRuns t rest stack')
    → ExprRuns (negate sp t) rest stack
unfolding show_expr value push token_type
negate-Runs sp t rest stack r part =
    let sign : Token = record { t = minus; v = pos 0; s = b'-' ∷ [] } in
    let (tok, c, runs) = part (sign ∷ stack) in
    (
      Stack.number (pos 0 -ℤ tok.v),
      record { is_number = refl; counts = rw c.counts },
      Runs-trans
          (Runs-operator sp b'-' minus (show_term t rest) stack (sign ∷ stack) refl refl refl refl)
          (runs _ (push_num-unary tok stack r)),
    )

push_num-binary :
    (sign : Token) (f : ℤ → ℤ → ℤ) (a n : Token) (stack : List Token)
    → is_left sign.t ≡ false
    → op sign.t ≡ some f
    → is_num a.t ≡ true
    → push_num (sign ∷ a ∷ stack) n ≡ ok (Stack.number (f a.v n.v) ∷ stack)
unfolding push_num apply_op
push_num-binary sign f a n stack l o h = rw (l, o, h)

add-Runs :
    (e : Expr) (sp : ℕ) (t : Term) (rest : Str) (stack : List Token)
    → ExprRuns e (spaces sp (b'+' ∷ show_term t rest)) stack
    → ((stack' : List Token) → TermRuns t rest stack')
    → ExprRuns (add e sp t) rest stack
unfolding show_expr value push token_type op
add-Runs e sp t rest stack (a, ca, before) part =
    let sign : Token = record { t = plus; v = pos 0; s = b'+' ∷ [] } in
    let (tok, c, runs) = part (sign ∷ a ∷ stack) in
    (
      Stack.number (a.v +ℤ tok.v),
      record {
        is_number = refl;
        counts = ap (λ x. x +ℤ tok.v) ca.counts ∙ ap (λ x. value e +ℤ x) c.counts;
      },
      Runs-trans before (
          Runs-trans
            (Runs-operator sp b'+' plus (show_term t rest) (a ∷ stack) (sign ∷ a ∷ stack) refl refl
              refl refl)
            (runs _ (push_num-binary sign (λ x y. x +ℤ y) a tok stack refl refl ca.is_number))),
    )

subtract-Runs :
    (e : Expr) (sp : ℕ) (t : Term) (rest : Str) (stack : List Token)
    → ExprRuns e (spaces sp (b'-' ∷ show_term t rest)) stack
    → ((stack' : List Token) → TermRuns t rest stack')
    → ExprRuns (subtract e sp t) rest stack
unfolding show_expr value push token_type op
subtract-Runs e sp t rest stack (a, ca, before) part =
    let sign : Token = record { t = minus; v = pos 0; s = b'-' ∷ [] } in
    let (tok, c, runs) = part (sign ∷ a ∷ stack) in
    (
      Stack.number (a.v -ℤ tok.v),
      record {
        is_number = refl;
        counts = ap (λ x. x -ℤ tok.v) ca.counts ∙ ap (λ x. value e -ℤ x) c.counts;
      },
      Runs-trans before (
          Runs-trans
            (Runs-operator sp b'-' minus (show_term t rest) (a ∷ stack) (sign ∷ a ∷ stack) refl refl
              refl refl)
            (runs _ (push_num-binary sign (λ x y. x -ℤ y) a tok stack refl refl ca.is_number))),
    )

mutual
  unfolding numeric_term numeric

  runs_term :
      (t : Term) (rest : Str) (stack : List Token)
      → numeric_term t ≡ true
      → stops rest ≡ true
      → TermRuns t rest stack
  runs_term (Expression.number sp c cs) rest stack d s = number-Runs sp c cs rest stack d s
  runs_term (bracket sp e sp') rest stack d s =
      bracket-Runs sp e sp' rest stack (λ rest' stack' r s'. runs_expr e rest' stack' r d s')

  runs_expr :
      (e : Expr) (rest : Str) (stack : List Token)
      → ready stack ≡ true
      → numeric e ≡ true
      → stops rest ≡ true
      → ExprRuns e rest stack
  runs_expr (term t) rest stack r d s = term-Runs t rest stack r (runs_term t rest stack d s)
  runs_expr (negate sp t) rest stack r d s =
      negate-Runs sp t rest stack r (λ stack'. runs_term t rest stack' d s)
  runs_expr (add e sp t) rest stack r d s =
      add-Runs e sp t rest stack
        (runs_expr e (spaces sp (b'+' ∷ show_term t rest)) stack r (ground arith)
          (stops-spaces sp b'+' (show_term t rest) refl))
        (λ stack'. runs_term t rest stack' (ground arith) s)
  runs_expr (subtract e sp t) rest stack r d s =
      subtract-Runs e sp t rest stack
        (runs_expr e (spaces sp (b'-' ∷ show_term t rest)) stack r (ground arith)
          (stops-spaces sp b'-' (show_term t rest) refl))
        (λ stack'. runs_term t rest stack' (ground arith) s)

last_round :
    (fuel sp : ℕ) (tok : Token)
    → is_num tok.t ≡ true
    → length (spaces sp []) < fuel
    → calculate_loop fuel (spaces sp []) (tok ∷ []) ≡ ok tok.v
unfolding calculate_loop answer next_token skip_spaces token_at
last_round zero sp tok n h = absurd (omega arith)
last_round (suc fuel) sp tok n h = rw (next_token-spaces sp [], calculate_loop, answer, n)

stops-blank : (sp : ℕ) → stops (spaces sp []) ≡ true
stops-blank zero = refl
stops-blank (suc sp) = refl

-- On the text of an expression of numbers, sums, differences, negations and brackets, with any
-- spaces before its parts and at the end, `calculate` raises nothing and returns the value.
pub calculate-show_expr :
    (e : Expr) (sp : ℕ) → numeric e ≡ true → calculate (show_expr e (spaces sp [])) ≡ ok (value e)
unfolding calculate
calculate-show_expr e sp d =
    let (tok, c, runs) = runs_expr e (spaces sp []) [] refl d (stops-blank sp) in
    let (fuel, enough, moved) = runs.run (length (show_expr e (spaces sp [])) + 1) (omega arith) in
    moved ∙ last_round fuel sp tok c.is_number enough ∙ ap ok c.counts
