-- ===== src/Calculator/Stack.antt =====
-- `Calculator` of python/calculator.py. The list `stack` is kept top first.
use code_recipes.Common.{
  ℕ, zero, suc, ◌+◌, Bool, true, false, if◌then◌else◌, Option, none, some, List, [], ◌∷◌, length,
}
use code_recipes.Common.Int.{ℤ, pos, ◌+ℤ◌, ◌-ℤ◌}
use code_recipes.Common.Eq.{Str}
use code_recipes.Common.Result.{ok, err, ◌>>=◌, or_raise}
use code_recipes.Calculator.Tokens.{
  TokenType, Token, num, left, right, plus, minus, Run, assertion_error, out_of_fuel, next_token,
}

-- `_OPS[t]`
unfoldable pub op : TokenType → Option (ℤ → ℤ → ℤ)
op num = none
op left = none
op right = none
op plus = some (λ a b. a +ℤ b)
op minus = some (λ a b. a -ℤ b)

abbrev pub is_num : TokenType → Bool
is_num num = true
is_num left = false
is_num right = false
is_num plus = false
is_num minus = false

abbrev pub is_left : TokenType → Bool
is_left num = false
is_left left = true
is_left right = false
is_left plus = false
is_left minus = false

abbrev pub number : ℤ → Token
number v = record { t = num; v = v; s = [] }

-- `push_num` once the operator is popped: the number below it, if there is one, is its left side.
unfoldable pub apply_op : (ℤ → ℤ → ℤ) → Token → List Token → List Token
apply_op f n [] = number (f (pos 0) n.v) ∷ []
apply_op f n (l ∷ stack) =
    if is_num l.t then number (f l.v n.v) ∷ stack else number (f (pos 0) n.v) ∷ l ∷ stack

-- The assertion on the top's type fails exactly where `_OPS` has no entry.
unfoldable pub push_num : List Token → Token → Run (List Token)
unfolding op apply_op
push_num [] n = ok (n ∷ [])
push_num (top ∷ stack) n =
    if is_left top.t
    then ok (n ∷ top ∷ stack)
    else (do f ← or_raise (op top.t) assertion_error; ok (apply_op f n stack))

unfoldable pub push_right : List Token → Run (List Token)
unfolding push_num
push_right [] = err assertion_error
push_right (n ∷ []) = err assertion_error
push_right (n ∷ l ∷ stack) =
    let pushed = push_num stack n in
    if is_num n.t
    then (if is_left l.t then pushed else err assertion_error)
    else err assertion_error

-- The body of the loop of `calculate`.
unfoldable pub push : Token → List Token → Run (List Token)
unfolding push_num push_right
push tok stack = elim tok.t [
  | left ↦ ok (tok ∷ stack)
  | plus ↦ ok (tok ∷ stack)
  | minus ↦ ok (tok ∷ stack)
  | right ↦ push_right stack
  | num ↦ push_num stack tok
]

-- The assertions after the loop.
unfoldable pub answer : List Token → Run ℤ
answer [] = err assertion_error
answer (n ∷ []) = if is_num n.t then ok n.v else err assertion_error
answer (n ∷ l ∷ stack) = err assertion_error

-- One round of the loop, once the next token is asked for, and the rounds after it.
unfoldable pub round : (Str → List Token → Run ℤ) → Run (Option (Token × Str)) → List Token → Run ℤ
unfolding push answer
round rounds (err e) stack = err e
round rounds (ok none) stack = answer stack
round rounds (ok (some (tok, rest))) stack = push tok stack >>= rounds rest

-- The loop, with the tokens left as fuel
unfoldable pub calculate_loop : ℕ → Str → List Token → Run ℤ
unfolding next_token round
calculate_loop zero s stack = err out_of_fuel
calculate_loop (suc fuel) s stack =
    round (λ rest stack'. calculate_loop fuel rest stack') (next_token s) stack

unfoldable pub calculate : Str → Run ℤ
unfolding calculate_loop
calculate s = calculate_loop (length s + 1) s []
