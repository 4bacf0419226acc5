-- ===== src/Calculator/Tokens.antt =====
-- `Token` and `gen_tokens` of python/calculator.py. The text from the generator's place `p` on is
-- its state, and `next_token` runs it up to the next `yield`. Digits are the ASCII ones.
use code_recipes.Common.{
  ℕ, ◌+◌, ◌-◌, ◌*◌, Bool, ◌&&◌, leb, ◌==◌, if◌then◌else◌, Option, none, some, [], ◌∷◌,
}
use code_recipes.Common.Int.{ℤ, pos}
use code_recipes.Common.Eq.{Str}
use code_recipes.Common.Result.{Result, ok, ◌>>=◌, or_raise}

pub data TokenType : Type 0 where
  num left right plus minus : TokenType

pub record Token : Type 0 where
  pub t : TokenType
  pub v : ℤ
  pub s : Str

-- The exceptions, and the end of the model's fuel.
pub data Error : Type 0 where
  key_error assertion_error index_error out_of_fuel : Error

abbrev pub Run {ℓ} : Type ℓ → Type ℓ
Run A = Result Error A

abbrev pub is_digit : ℕ → Bool
is_digit c = leb b'0' c && leb c b'9'

-- `TokenTypeMap`
unfoldable pub token_type : ℕ → Option TokenType
token_type c =
    if c == b'('
    then some left
    else if c == b')'
    then some right
    else if c == b'+'
    then some plus
    else if c == b'-'
    then some minus
    else none

unfoldable pub skip_spaces : Str → Str
skip_spaces [] = []
skip_spaces (c ∷ cs) = if c == b' ' then skip_spaces cs else c ∷ cs

-- The digits in front, and what follows them.
unfoldable pub digits : Str → Str
digits [] = []
digits (c ∷ cs) = if is_digit c then c ∷ digits cs else []

unfoldable pub past_digits : Str → Str
past_digits [] = []
past_digits (c ∷ cs) = if is_digit c then past_digits cs else c ∷ cs

-- `int` of a text of digits, after the ones read before
unfoldable pub int_from : ℕ → Str → ℕ
int_from n [] = n
int_from n (c ∷ cs) = int_from (10 * n + (c - b'0')) cs

unfoldable pub token_at : Str → Run (Option (Token × Str))
unfolding digits past_digits int_from token_type
token_at [] = ok none
token_at (c ∷ cs) =
    if is_digit c
    then ok (
        some (
          record { t = num; v = pos (int_from 0 (digits (c ∷ cs))); s = digits (c ∷ cs) },
          past_digits (c ∷ cs),
        ))
    else (do
      t ← or_raise (token_type c) key_error
      ok (some (record { t = t; v = pos 0; s = c ∷ [] }, cs)))

unfoldable pub next_token : Str → Run (Option (Token × Str))
unfolding token_at skip_spaces
next_token s = token_at (skip_spaces s)
