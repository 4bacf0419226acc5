-- ===== src/Calculator/Terminates.antt =====
-- The loop of `calculate` ends on every text, also on one that is no expression.
use code_recipes.Common.{
  ℕ, zero, suc, ◌+◌, ◌≤◌, ◌<◌, ◌≡◌, ◌≢◌, refl, ap, arith, List, [], ◌∷◌, length, none, some, Option,
}
use code_recipes.Common.Int.{ℤ}
use code_recipes.Common.Eq.{Str}
use code_recipes.Common.Result.{ok, err, ◌>>=◌}
use code_recipes.Calculator.Tokens.{
  Token, Error, Run, skip_spaces, past_digits, token_at, next_token, out_of_fuel,
}
use code_recipes.Calculator.Stack.{
  op, push_num, push_right, push, answer, calculate_loop, round, calculate,
}

length-skip_spaces : (s : Str) → length (skip_spaces s) ≤ length s
unfolding skip_spaces
length-skip_spaces [] = omega arith
length-skip_spaces (c ∷ cs) = ground (arith, length-skip_spaces cs)

length-past_digits : (s : Str) → length (past_digits s) ≤ length s
unfolding past_digits
length-past_digits [] = omega arith
length-past_digits (c ∷ cs) = ground (arith, length-past_digits cs)

token_at-shorter :
    (s : Str) {tok : Token} {rest : Str}
    → token_at s ≡ ok (some (tok, rest))
    → length rest < length s
unfolding token_at past_digits
token_at-shorter [] h = cc
token_at-shorter (c ∷ cs) h = ground (arith, length-past_digits cs)

next_token-shorter :
    (s : Str) {tok : Token} {rest : Str}
    → next_token s ≡ ok (some (tok, rest))
    → length rest < length s
unfolding next_token
next_token-shorter s h = omega (arith, token_at-shorter (skip_spaces s) h, length-skip_spaces s)

token_at-ends : (s : Str) → token_at s ≢ err out_of_fuel
unfolding token_at
token_at-ends [] h = cc
token_at-ends (c ∷ cs) h = ground arith

push_num-ends : (stack : List Token) (n : Token) → push_num stack n ≢ err out_of_fuel
unfolding push_num op
push_num-ends [] n h = cc
push_num-ends (top ∷ stack) n h = ground arith

push_right-ends : (stack : List Token) → push_right stack ≢ err out_of_fuel
unfolding push_right
push_right-ends [] h = cc
push_right-ends (n ∷ []) h = cc
push_right-ends (n ∷ l ∷ stack) h = ground (arith, push_num-ends stack n)

push-ends : (tok : Token) (stack : List Token) → push tok stack ≢ err out_of_fuel
unfolding push
push-ends tok stack h = ground (arith, push_num-ends stack tok, push_right-ends stack)

answer-ends : (stack : List Token) → answer stack ≢ err out_of_fuel
unfolding answer
answer-ends [] h = cc
answer-ends (n ∷ []) h = ground arith
answer-ends (n ∷ l ∷ stack) h = cc

err-inj : {A : Type 0} {e e' : Error} → ◌≡◌ {A = Run A} (err e) (err e') → e ≡ e'
err-inj h = cc

pushed-ends :
    (rounds : List Token → Run ℤ) (pushed : Run (List Token))
    → pushed ≢ err out_of_fuel
    → ((stack' : List Token) → rounds stack' ≢ err out_of_fuel)
    → (pushed >>= rounds) ≢ err out_of_fuel
pushed-ends rounds (ok stack') ends later h = later stack' h
pushed-ends rounds (err e) ends later h = absurd (ends (ap err (err-inj h)))

-- One round ends if the next one does.
round-ends :
    (rounds : Str → List Token → Run ℤ) (stack : List Token) (next : Run (Option (Token × Str)))
    → next ≢ err out_of_fuel
    → ((tok : Token) (rest : Str) (stack' : List Token)
        → next ≡ ok (some (tok, rest))
        → rounds rest stack' ≢ err out_of_fuel)
    → round rounds next stack ≢ err out_of_fuel
unfolding round
round-ends rounds stack (err e) ends later h = absurd (ends (ap err (err-inj h)))
round-ends rounds stack (ok none) ends later h = answer-ends stack h
round-ends rounds stack (ok (some (tok, rest))) ends later h =
    pushed-ends (rounds rest) (push tok stack) (push-ends tok stack)
      (λ stack'. later tok rest stack' refl) h

calculate_loop-ends :
    (fuel : ℕ) (s : Str) (stack : List Token)
    → length s < fuel
    → calculate_loop fuel s stack ≢ err out_of_fuel
unfolding calculate_loop next_token
calculate_loop-ends zero s stack enough h = absurd (omega arith)
calculate_loop-ends (suc fuel) s stack enough h =
    round-ends (λ rest stack'. calculate_loop fuel rest stack') stack (next_token s)
      (token_at-ends (skip_spaces s))
      (λ tok rest stack' next.
        calculate_loop-ends fuel rest stack' (omega (arith, next_token-shorter s next)))
      h

-- `calculate` ends on every text: one more round than the text has characters is enough for it to
-- return or raise.
pub calculate-ends : (s : Str) → calculate s ≢ err out_of_fuel
unfolding calculate
calculate-ends s h = calculate_loop-ends (length s + 1) s [] (omega arith) h
