-- ===== src/Grafana/Target.antt =====
-- `add_global_variable` and `process_target`. A target is a dict of texts; the loop's index into the
-- expression is the text that is left. `str.lower` is a parameter.
use code_recipes.Common.{
  ℕ, zero, suc, ◌+◌, Bool, false, ◌&&◌, ◌||◌, leb, ◌==◌, if◌then◌else◌, [], ◌∷◌, ◌++◌, length, none,
  some,
}
use code_recipes.Common.Eq.{Str, str_eq}
use code_recipes.Common.Dict.{Dict, lookup, insert}
use code_recipes.Common.Result.{Result, ok, err, ◌>>=◌, or_raise}
use code_recipes.Common.Text.{codes}

pub data Error : Type 0 where
  key_error index_error out_of_fuel : Error

abbrev pub Run {ℓ} : Type ℓ → Type ℓ
Run A = Result Error A

abbrev pub Target : Type 0
Target = Dict Str Str

-- The dict literal: the later value of "__rate_interval" stands at the place of the first.
unfoldable pub global_variables : Target
global_variables =
    (codes "__dashboard", codes "__dashboard")
    ∷ (codes "__from", codes "1594671549254")
    ∷ (codes "__to", codes "1594671549254")
    ∷ (codes "__interval", codes "1m")
    ∷ (codes "__interval_ms", codes "1000")
    ∷ (codes "__rate_interval", codes "5m")
    ∷ (codes "__name", codes "__name")
    ∷ (codes "__org", codes "__org")
    ∷ (codes "__user", codes "__user")
    ∷ (codes "__range", codes "__range")
    ∷ (codes "__range_s", codes "10")
    ∷ (codes "__range_ms", codes "1000")
    ∷ (codes "timeFilter", codes "timeFilter")
    ∷ (codes "__timeFilter", codes "__timeFilter")
    ∷ []

unfoldable pub add_missing : Target → Target → Target
unfolding lookup insert
add_missing [] target = target
add_missing ((k, v) ∷ more) target =
    add_missing more (elim (lookup k target) [ none ↦ insert k v target | some w ↦ target ])

unfoldable pub add_global_variable : Target → Target
unfolding add_missing global_variables
add_global_variable target = add_missing global_variables target

-- `start_chars` and `chars`
abbrev pub is_start : ℕ → Bool
is_start c = (leb 97 c && leb c 122) || (leb 65 c && leb c 90) || c == 95

abbrev pub is_char : ℕ → Bool
is_char c = is_start c || (leb 48 c && leb c 57)

-- `expr[i + 1] in start_chars or expr[i + 1] == "{"`, where there is such a character
abbrev pub opens : Str → Bool
opens [] = false
opens (c ∷ cs) = is_start c || c == 123

-- `while j < len(expr) and expr[j] in chars: j += 1`
abbrev pub name_of : Str → Str
name_of [] = []
name_of (c ∷ cs) = if is_char c then c ∷ name_of cs else []

abbrev pub past_name : Str → Str
past_name [] = []
past_name (c ∷ cs) = if is_char c then past_name cs else c ∷ cs

-- `while expr[j] != "}": j += 1` and `j += 1`: what it passes, and what is left.
abbrev pub to_brace : Str → Run (Str × Str)
to_brace [] = err index_error
to_brace (c ∷ cs) = if c == 125 then ok (c ∷ [], cs) else (to_brace cs >>= λ r. ok (c ∷ r.0, r.1))

-- The name after a `$`, and what is left.
unfoldable pub reference : Str → Run (Str × Str)
reference [] = ok ([], [])
reference (c ∷ cs) =
    if c == 123
    then (to_brace (past_name cs) >>= λ r. ok (name_of cs ++ r.0, r.1))
    else ok (name_of (c ∷ cs), past_name (c ∷ cs))

module _ (lower : Str → Str) where
  unfoldable pub process_loop : ℕ → Target → Str → Run Str
  unfolding lookup reference
  process_loop zero target text = err out_of_fuel
  process_loop (suc fuel) target [] = ok []
  process_loop (suc fuel) target (c ∷ cs) =
      let plain : Run Str = process_loop fuel target cs >>= λ res. ok (c ∷ res) in
      let replaced : Run Str = reference cs >>= λ r.
      or_raise (lookup (lower r.0) target) key_error >>= λ v.
      process_loop fuel target r.1 >>= λ res. ok (v ++ res) in
      if c == 36 && opens cs then replaced else plain

  unfoldable pub process_target : Target → Run Str
  unfolding process_loop lookup
  process_target target = or_raise (lookup (codes "expr") target) key_error >>= λ expr.
      process_loop (length expr + 1) target expr
