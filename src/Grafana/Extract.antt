-- ===== src/Grafana/Extract.antt =====
-- `extract_expression_from_grafana_dashboard_json`: what it prints for a dashboard, and the exception
-- that ends it, if any. The JSON is an argument: the panels with the targets of those that have some.
pub mod Shown
use code_recipes.Common.{
  ℕ, ◌≡◌, refl, ap, arith, Bool, false, ◌||◌, ◌==◌, if◌then◌else◌, List, [], ◌∷◌, ◌++◌, map, Option,
  none, some,
}
use code_recipes.Common.Eq.{Str, str_eq}
use code_recipes.Common.Text.{codes}
use code_recipes.Common.Dict.{lookup}
use code_recipes.Common.Result.{ok, err}
use code_recipes.Grafana.Target.{Run, Target, key_error, add_global_variable, process_target}

abbrev pub Panel : Type 0
Panel = Option (List Target)

-- `sum([panel["targets"] for panel in j["panels"] if "targets" in panel], [])`
abbrev pub targets_of : List Panel → List Target
targets_of [] = []
targets_of (none ∷ panels) = targets_of panels
targets_of (some ts ∷ panels) = ts ++ targets_of panels

-- `.replace("\n", " ").replace("\r", " ")`
abbrev pub blank : ℕ → ℕ
blank c = if c == 10 || c == 13 then 32 else c

abbrev pub one_line : Str → Str
one_line text = map blank text

abbrev pub Printed : Type 0
Printed = List Str × Run (Unit {0})

abbrev pub print_first : Run Str → Printed → Printed
print_first (ok text) rest = (one_line text ∷ rest.0, rest.1)
print_first (err e) rest = ([], err e)

-- `if "expr" not in t: continue`, or the print
abbrev pub print_one : Option Str → Run Str → Printed → Printed
print_one none processed rest = rest
print_one (some expr) processed rest = print_first processed rest

module _ (lower : Str → Str) where
  -- The body of the loop, for the target with the global variables.
  abbrev pub print_target : Target → Printed → Printed
  print_target t rest = print_one (lookup (codes "expr") t) (process_target lower t) rest

  unfoldable pub extract_targets : List Target → Printed
  extract_targets [] = ([], ok tt)
  extract_targets (t ∷ ts) = print_target (add_global_variable t) (extract_targets ts)

  -- `j["panels"]` raises where there is no such key.
  unfoldable pub extract_expression_from_dashboard : Option (List Panel) → Printed
  unfolding extract_targets
  extract_expression_from_dashboard none = ([], err key_error)
  extract_expression_from_dashboard (some panels) = extract_targets (targets_of panels)
