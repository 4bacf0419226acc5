-- ===== src/Grafana/Tests.antt =====
-- An expression with a global variable, and one with its name in braces.
use code_recipes.Common.{◌≡◌, refl, arith, List, [], ◌∷◌, none, some}
use code_recipes.Common.Eq.{Str, str_eq}
use code_recipes.Common.Dict.{lookup}
use code_recipes.Common.Text.{codes}
use code_recipes.Common.Result.{ok, err}
use code_recipes.Grafana.Target.{Target, key_error, add_global_variable, process_target}
use code_recipes.Grafana.Extract.{Panel, extract_expression_from_dashboard}
use code_recipes.Grafana.Extract.Shown.{no_more, skipped, read, extract_expression-Shown}
use code_recipes.Grafana.Replaced.{Reads, nothing, char, variable, process_target-braces}

abbrev same_case : Str → Str
same_case s = s

abbrev braces : Target
braces = (codes "expr", codes "${x}+1") ∷ (codes "x", codes "5m") ∷ []

braces_expr : lookup (codes "expr") braces ≡ some (codes "${x}+1")
unfolding lookup
braces_expr = refl

braces_missing : lookup (codes "x}") braces ≡ none
unfolding lookup
braces_missing = refl

process_target-braces_example : process_target same_case braces ≡ err key_error
process_target-braces_example =
    process_target-braces same_case braces (codes "x") (codes "+1") (refl, tt) braces_expr
      braces_missing

abbrev note : Target
note = (codes "text", codes "a note") ∷ []

abbrev two_lines : Target
two_lines = (codes "expr", codes "$__org\nup") ∷ []

two_lines-Reads :
    Reads same_case (add_global_variable two_lines) (codes "$__org\nup") (codes "__org\nup")
unfolding add_global_variable lookup
two_lines-Reads =
    variable 95 (codes "_org") (codes "\nup") (codes "__org") refl
      (refl, (refl, (refl, (refl, tt)))) refl refl
      (char (λ e. ground arith) (char (λ e. ground arith) (char (λ e. ground arith) nothing)))

own_expr : lookup (codes "expr") two_lines ≡ some (codes "$__org\nup")
unfolding lookup
own_expr = refl

no_expr : lookup (codes "expr") note ≡ none
unfolding lookup
no_expr = refl

abbrev panels : List Panel
panels = none ∷ some (note ∷ two_lines ∷ []) ∷ []

extract_expression-Shown_example :
    extract_expression_from_dashboard same_case (some panels) ≡ (codes "__org up" ∷ [], ok tt)
extract_expression-Shown_example =
    extract_expression-Shown same_case panels (codes "__org up" ∷ []) (
      skipped no_expr
        (read (codes "$__org\nup") (codes "__org\nup") own_expr two_lines-Reads no_more))
