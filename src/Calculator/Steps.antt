-- ===== src/Calculator/Steps.antt =====
-- One token of the text of an expression: what `gen_tokens` reads, and what the loop of `calculate`
-- then does.
use code_recipes.Common.{
  ℕ, zero, suc, ◌+◌, ◌<◌, ◌≡◌, refl, ap, ◌∙◌, arith, Bool, true, false, not, ◌&&◌, ◌==◌, List, [],
  ◌∷◌, length, some,
}
use code_recipes.Common.Int.{ℤ, pos, ◌-ℤ◌}
use code_recipes.Common.Eq.{Str}
use code_recipes.Common.Result.{ok}
use code_recipes.Calculator.Tokens.{
  TokenType, Token, num, minus, is_digit, token_type, skip_spaces, digits, past_digits, int_from,
  token_at, next_token,
}
use code_recipes.Calculator.Stack.{
  is_num, is_left, op, apply_op, push_num, push_right, push, answer, calculate_loop, calculate,
}
use code_recipes.Calculator.Stack
use code_recipes.Calculator.Expression.{spaces, chars, all_digits}

-- No digit stands in front.
abbrev pub stops : Str → Bool
stops [] = true
stops (c ∷ cs) = not (is_digit c)

pub stops-spaces : (sp c : ℕ) (s : Str) → is_digit c ≡ false → stops (spaces sp (c ∷ s)) ≡ true
stops-spaces zero c s h = ground (arith, h)
stops-spaces (suc sp) c s h = refl

length-spaces : (sp : ℕ) (s : Str) → length (spaces sp s) ≡ sp + length s
length-spaces zero s = omega arith
length-spaces (suc sp) s = omega (arith, length-spaces sp s)

length-chars : (cs s : Str) → length (chars cs s) ≡ length cs + length s
length-chars [] s = omega arith
length-chars (c ∷ cs) s = omega (arith, length-chars cs s)

skip_spaces-spaces : (sp : ℕ) (s : Str) → skip_spaces (spaces sp s) ≡ skip_spaces s
unfolding skip_spaces
skip_spaces-spaces zero s = refl
skip_spaces-spaces (suc sp) s = skip_spaces-spaces sp s

pub next_token-spaces : (sp : ℕ) (s : Str) → next_token (spaces sp s) ≡ next_token s
unfolding next_token
next_token-spaces sp s = ap token_at (skip_spaces-spaces sp s)

digits-chars :
    (cs rest : Str) → all_digits cs ≡ true → stops rest ≡ true → digits (chars cs rest) ≡ cs
unfolding digits
digits-chars [] [] d s = refl
digits-chars [] (c ∷ rest) d s = ground arith
digits-chars (c ∷ cs) rest d s = ground (arith, digits-chars cs rest)

past_digits-chars :
    (cs rest : Str) → all_digits cs ≡ true → stops rest ≡ true → past_digits (chars cs rest) ≡ rest
unfolding past_digits
past_digits-chars [] [] d s = refl
past_digits-chars [] (c ∷ rest) d s = ground arith
past_digits-chars (c ∷ cs) rest d s = ground (arith, past_digits-chars cs rest)

abbrev pub number_token : ℕ → Str → Token
number_token c cs = record { t = num; v = pos (int_from 0 (c ∷ cs)); s = c ∷ cs }

pub next_token-number :
    (c : ℕ) (cs rest : Str)
    → (is_digit c && all_digits cs) ≡ true
    → stops rest ≡ true
    → next_token (c ∷ chars cs rest) ≡ ok (some (number_token c cs, rest))
unfolding next_token skip_spaces token_at
next_token-number c cs rest d s =
    let first : is_digit c ≡ true = ground arith in
    let solid : (c == b' ') ≡ false = ground arith in
    let others : all_digits cs ≡ true = ground arith in
    rw (solid, first, digits-chars cs rest others s, past_digits-chars cs rest others s)

next_token-operator :
    (sp c : ℕ) (t : TokenType) (rest : Str)
    → is_digit c ≡ false
    → (c == b' ') ≡ false
    → token_type c ≡ some t
    → next_token (spaces sp (c ∷ rest)) ≡ ok (some (record { t = t; v = pos 0; s = c ∷ [] }, rest))
unfolding token_at skip_spaces next_token
next_token-operator sp c t rest d solid found =
    next_token-spaces sp (c ∷ rest) ∙ rw (solid, d, found)

-- With enough fuel for the text `s`, the loop gets to `rest` and `stack'` with enough for `rest`.
pub record Runs (s : Str) (stack : List Token) (rest : Str) (stack' : List Token) : Type 0 where
  pub run :
      (fuel : ℕ)
      → length s < fuel
      → (fuel' : ℕ) × (length rest < fuel')
        × (calculate_loop fuel s stack ≡ calculate_loop fuel' rest stack')

pub Runs-trans :
    {s s' s'' : Str} {st st' st'' : List Token}
    → Runs s st s' st'
    → Runs s' st' s'' st''
    → Runs s st s'' st''
Runs-trans p q = record {
  run = λ fuel h.
      let (f, h', e) = p.run fuel h in let (f', h'', e') = q.run f h' in (f', h'', e ∙ e');
}

loop-token :
    (fuel : ℕ) (s rest : Str) (stack stack' : List Token) (tok : Token)
    → next_token s ≡ ok (some (tok, rest))
    → push tok stack ≡ ok stack'
    → calculate_loop (suc fuel) s stack ≡ calculate_loop fuel rest stack'
unfolding calculate_loop
loop-token fuel s rest stack stack' tok next pushed = rw (next, calculate_loop, pushed)

loop-token_run :
    (fuel : ℕ) (s rest : Str) (stack stack' : List Token) (tok : Token)
    → length rest < length s
    → next_token s ≡ ok (some (tok, rest))
    → push tok stack ≡ ok stack'
    → length s < fuel
    → (fuel' : ℕ) × (length rest < fuel')
      × (calculate_loop fuel s stack ≡ calculate_loop fuel' rest stack')
loop-token_run zero s rest stack stack' tok shorter next pushed h = absurd (omega arith)
loop-token_run (suc fuel) s rest stack stack' tok shorter next pushed h =
    (fuel, omega arith, loop-token fuel s rest stack stack' tok next pushed)

pub Runs-token :
    (s rest : Str) (stack stack' : List Token) (tok : Token)
    → length rest < length s
    → next_token s ≡ ok (some (tok, rest))
    → push tok stack ≡ ok stack'
    → Runs s stack rest stack'
Runs-token s rest stack stack' tok shorter next pushed = record {
  run = λ fuel h. loop-token_run fuel s rest stack stack' tok shorter next pushed h;
}

pub length-spaces_cons : (sp c : ℕ) (rest : Str) → length rest < length (spaces sp (c ∷ rest))
length-spaces_cons sp c rest = omega (arith, length-spaces sp (c ∷ rest))

-- The token of an operator or an opening bracket is put on the stack.
pub Runs-operator :
    (sp c : ℕ) (t : TokenType) (rest : Str) (stack stack' : List Token)
    → is_digit c ≡ false
    → (c == b' ') ≡ false
    → token_type c ≡ some t
    → push (record { t = t; v = pos 0; s = c ∷ [] }) stack ≡ ok stack'
    → Runs (spaces sp (c ∷ rest)) stack rest stack'
Runs-operator sp c t rest stack stack' d solid found pushed =
    Runs-token (spaces sp (c ∷ rest)) rest stack stack' _ (length-spaces_cons sp c rest)
      (next_token-operator sp c t rest d solid found) pushed

pub length-spaces-chars :
    (sp c : ℕ) (cs rest : Str) → length rest < length (spaces sp (c ∷ chars cs rest))
length-spaces-chars sp c cs rest =
    omega (arith, length-spaces sp (c ∷ chars cs rest), length-chars cs rest)

-- The stack takes a number as it is.
abbrev pub ready : List Token → Bool
ready [] = true
ready (top ∷ stack) = is_left top.t

pub apply_op-ready :
    (f : ℤ → ℤ → ℤ) (n : Token) (stack : List Token)
    → ready stack ≡ true
    → apply_op f n stack ≡ Stack.number (f (pos 0) n.v) ∷ stack
unfolding apply_op
apply_op-ready f n [] r = refl
apply_op-ready f n (top ∷ stack) r = ground arith

pub push_num-ready :
    (n : Token) (stack : List Token) → ready stack ≡ true → push_num stack n ≡ ok (n ∷ stack)
unfolding push_num
push_num-ready n [] r = refl
push_num-ready n (top ∷ stack) r = rw r

pub push_num-unary :
    (n : Token) (stack : List Token)
    → ready stack ≡ true
    → push_num (record { t = minus; v = pos 0; s = b'-' ∷ [] } ∷ stack) n
      ≡ ok (Stack.number (pos 0 -ℤ n.v) ∷ stack)
unfolding push_num op
push_num-unary n stack r = ap ok (apply_op-ready (λ a b. a -ℤ b) n stack r)
