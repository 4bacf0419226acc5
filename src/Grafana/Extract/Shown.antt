-- ===== src/Grafana/Extract/Shown.antt =====
-- What is printed for a dashboard whose expressions can all be read.
use code_recipes.Common.{◌≡◌, refl, ap, ◌∙◌, List, [], ◌∷◌, none, some}
use code_recipes.Common.Eq.{Str, str_eq}
use code_recipes.Common.Text.{codes}
use code_recipes.Common.Dict.{lookup}
use code_recipes.Common.Result.{ok}
use code_recipes.Grafana.Target.{Target, global_variables, add_global_variable, process_target}
use code_recipes.Grafana.Defaults.{or_default, lookup-add_global_variable}
use code_recipes.Grafana.Replaced.{Reads, process_target-Reads}
use code_recipes.Grafana.Extract.{
  Panel, targets_of, one_line, print_first, print_one, extract_targets,
  extract_expression_from_dashboard,
}

-- The lines for the targets: none for a target without an expression, and for any other what its
-- expression reads as with the target's own variables and the global ones, in one line.
pub data Shown (lower : Str → Str) : List Target → List Str → Type 0 where
  no_more : Shown lower [] []
  skipped :
      {t : Target} {ts : List Target} {out : List Str}
      → lookup (codes "expr") t ≡ none
      → Shown lower ts out
      → Shown lower (t ∷ ts) out
  read :
      {t : Target} {ts : List Target} {out : List Str} (expr text : Str)
      → lookup (codes "expr") t ≡ some expr
      → Reads lower (add_global_variable t) expr text
      → Shown lower ts out
      → Shown lower (t ∷ ts) (one_line text ∷ out)

expr_is_own : lookup (codes "expr") global_variables ≡ none
unfolding lookup global_variables
expr_is_own = refl

expr-none :
    (t : Target)
    → lookup (codes "expr") t ≡ none
    → lookup (codes "expr") (add_global_variable t) ≡ none
expr-none t h =
    lookup-add_global_variable t (codes "expr")
    ∙ ap (λ o. or_default o (lookup (codes "expr") global_variables)) h
    ∙ expr_is_own

expr-some :
    (t : Target) (expr : Str)
    → lookup (codes "expr") t ≡ some expr
    → lookup (codes "expr") (add_global_variable t) ≡ some expr
expr-some t expr h =
    lookup-add_global_variable t (codes "expr")
    ∙ ap (λ o. or_default o (lookup (codes "expr") global_variables)) h

module _ (lower : Str → Str) where
  extract_targets-Shown :
      (ts : List Target) (out : List Str)
      → Shown lower ts out
      → extract_targets lower ts ≡ (out, ok tt)
  unfolding extract_targets
  extract_targets-Shown [] [] no_more = refl
  extract_targets-Shown [] (line ∷ out) h = elim h [ ]
  extract_targets-Shown (t ∷ ts) out (skipped h more) =
      ap
        (λ o. print_one o (process_target lower (add_global_variable t)) (extract_targets lower ts))
        (expr-none t h)
      ∙ extract_targets-Shown ts out more
  extract_targets-Shown (t ∷ ts) (line ∷ out) (read expr text h reads more) =
      let global = add_global_variable t in
      ap (λ o. print_one o (process_target lower global) (extract_targets lower ts))
        (expr-some t expr h)
      ∙ ap (λ r. print_first r (extract_targets lower ts))
          (process_target-Reads lower global expr text (expr-some t expr h) reads)
      ∙ ap (print_first (ok text)) (extract_targets-Shown ts out more)

  -- For a dashboard with panels, if every expression of their targets can be read, nothing is raised
  -- and the lines printed are those of the targets, in their order.
  pub extract_expression-Shown :
      (panels : List Panel) (out : List Str)
      → Shown lower (targets_of panels) out
      → extract_expression_from_dashboard lower (some panels) ≡ (out, ok tt)
  unfolding extract_expression_from_dashboard
  extract_expression-Shown panels out h = extract_targets-Shown (targets_of panels) out h
