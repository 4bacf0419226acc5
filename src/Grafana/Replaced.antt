-- ===== src/Grafana/Replaced.antt =====
-- What `process_target` answers for an expression with variables.
use code_recipes.Common.{
  ℕ, zero, suc, ◌+◌, ◌<◌, ◌≡◌, ◌≢◌, refl, ap, ◌∙◌, arith, true, false, ◌&&◌, ◌==◌, [], ◌∷◌, ◌++◌,
  length, length-append, none, some,
}
use code_recipes.Common.Eq.{Str, str_eq}
use code_recipes.Common.Dict.{lookup}
use code_recipes.Common.Result.{ok, err}
use code_recipes.Common.Text.{codes}
use code_recipes.Grafana.Target.{
  key_error, Target, is_start, is_char, opens, name_of, past_name, reference, process_loop,
  process_target,
}

abbrev pub AllChars : Str → Type 0
AllChars [] = Unit
AllChars (c ∷ cs) = (is_char c ≡ true) × AllChars cs

-- The text does not go on with a character of a name.
abbrev pub Stops : Str → Type 0
Stops [] = Unit
Stops (c ∷ cs) = is_char c ≡ false

-- What an expression reads as: its characters, with the value of a variable for each `$` and name.
pub data Reads (lower : Str → Str) (target : Target) : Str → Str → Type 0 where
  nothing : Reads lower target [] []
  char :
      {c : ℕ} {text res : Str}
      → c ≢ 36
      → Reads lower target text res
      → Reads lower target (c ∷ text) (c ∷ res)
  lone :
      {text res : Str}
      → opens text ≡ false
      → Reads lower target text res
      → Reads lower target (36 ∷ text) (36 ∷ res)
  variable :
      (c : ℕ) (name text value : Str) {res : Str}
      → is_start c ≡ true
      → AllChars name
      → Stops text
      → lookup (lower (c ∷ name)) target ≡ some value
      → Reads lower target text res
      → Reads lower target (36 ∷ c ∷ (name ++ text)) (value ++ res)

name_of-append : (name text : Str) → AllChars name → Stops text → name_of (name ++ text) ≡ name
name_of-append [] [] a s = refl
name_of-append [] (c ∷ text) a s = rw s
name_of-append (c ∷ name) text a s = rw (a.0, name_of-append name text a.1 s)

past_name-append : (name text : Str) → AllChars name → Stops text → past_name (name ++ text) ≡ text
past_name-append [] [] a s = refl
past_name-append [] (c ∷ text) a s = rw s
past_name-append (c ∷ name) text a s = rw (a.0) (past_name-append name text a.1 s)

reference-variable :
    (c : ℕ) (name text : Str)
    → is_start c ≡ true
    → AllChars name
    → Stops text
    → reference (c ∷ (name ++ text)) ≡ ok (c ∷ name, text)
unfolding reference
reference-variable c name text st a s =
    let no_brace : (c == 123) ≡ false = ground arith in
    let is_one : is_char c ≡ true = ground arith in
    rw (no_brace, is_one, name_of-append name text a s, past_name-append name text a s)

opens-start : (c : ℕ) (cs : Str) → is_start c ≡ true → opens (c ∷ cs) ≡ true
opens-start c cs st = rw st

shorter :
    (c : ℕ) (name text : Str) (fuel : ℕ)
    → length (36 ∷ c ∷ (name ++ text)) < suc fuel
    → length text < fuel
shorter c name text fuel h = omega (arith, length-append name text)

module _ (lower : Str → Str) (target : Target) where
  process_loop-nil : (fuel : ℕ) → process_loop lower (suc fuel) target [] ≡ ok []
  unfolding process_loop
  process_loop-nil fuel = refl

  process_loop-plain :
      (fuel c : ℕ) (cs : Str) {res : Str}
      → (c == 36 && opens cs) ≡ false
      → process_loop lower fuel target cs ≡ ok res
      → process_loop lower (suc fuel) target (c ∷ cs) ≡ ok (c ∷ res)
  unfolding process_loop
  process_loop-plain fuel c cs h e = rw (h, e)

  process_loop-replaced :
      (fuel c : ℕ) (cs name text : Str) {res value : Str}
      → (c == 36 && opens cs) ≡ true
      → reference cs ≡ ok (name, text)
      → lookup (lower name) target ≡ some value
      → process_loop lower fuel target text ≡ ok res
      → process_loop lower (suc fuel) target (c ∷ cs) ≡ ok (value ++ res)
  unfolding process_loop
  process_loop-replaced fuel c cs name text h r l e = rw (h, r, l, e)

  process_loop-Reads :
      (fuel : ℕ) (text res : Str)
      → length text < fuel
      → Reads lower target text res
      → process_loop lower fuel target text ≡ ok res
  process_loop-Reads zero text res h r = ground arith
  process_loop-Reads (suc fuel) _ _ h nothing = process_loop-nil fuel
  process_loop-Reads (suc fuel) _ _ h (char {c = c} {text = text} {res = res} n r) =
      process_loop-plain fuel c text (ground arith)
        (process_loop-Reads fuel text res (omega arith) r)
  process_loop-Reads (suc fuel) _ _ h (lone {text = text} {res = res} n r) =
      process_loop-plain fuel 36 text n (process_loop-Reads fuel text res (omega arith) r)
  process_loop-Reads (suc fuel) _ _ h (variable c name text value {res = res} st a s e r) =
      process_loop-replaced fuel 36 (c ∷ (name ++ text)) (c ∷ name) text
        (opens-start c (name ++ text) st) (reference-variable c name text st a s) e
        (process_loop-Reads fuel text res (shorter c name text fuel h) r)

  -- An expression in which each `$` with a name is a variable of the target answers the text with the
  -- values in place of the variables, and all other characters as they are. A name ends where a
  -- character follows that no name has, and is looked up in lower case.
  pub process_target-Reads :
      (text res : Str)
      → lookup (codes "expr") target ≡ some text
      → Reads lower target text res
      → process_target lower target ≡ ok res
  unfolding process_target
  process_target-Reads text res e r =
      rw e (process_loop-Reads (length text + 1) text res (omega arith) r)

  process_loop-out :
      (fuel c : ℕ) (cs name text : Str)
      → (c == 36 && opens cs) ≡ true
      → reference cs ≡ ok (name, text)
      → lookup (lower name) target ≡ none
      → process_loop lower (suc fuel) target (c ∷ cs) ≡ err key_error
  unfolding process_loop
  process_loop-out fuel c cs name text h r l = rw (h, r, l)

reference-braces :
    (name text : Str)
    → AllChars name
    → reference (123 ∷ (name ++ 125 ∷ text)) ≡ ok (name ++ 125 ∷ [], text)
unfolding reference
reference-braces name text a =
    rw (name_of-append name (125 ∷ text) a refl, past_name-append name (125 ∷ text) a refl)

-- An expression that begins with a name in braces raises a KeyError, also when the name is a variable
-- of the target, as long as no key is the name with the closing brace.
pub process_target-braces :
    (lower : Str → Str) (target : Target) (name text : Str)
    → AllChars name
    → lookup (codes "expr") target ≡ some (36 ∷ 123 ∷ (name ++ 125 ∷ text))
    → lookup (lower (name ++ 125 ∷ [])) target ≡ none
    → process_target lower target ≡ err key_error
unfolding process_target
process_target-braces lower target name text a e missing =
    let expr : Str = 36 ∷ 123 ∷ (name ++ 125 ∷ text) in
    let enough : length expr + 1 ≡ suc (length expr) = omega arith in
    rw e (
      ap (λ n. process_loop lower n target expr) enough
      ∙ process_loop-out lower target (length expr) 36 (123 ∷ (name ++ 125 ∷ text))
          (name ++ 125 ∷ []) text refl (reference-braces name text a) missing)
