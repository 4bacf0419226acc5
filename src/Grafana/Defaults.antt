-- ===== src/Grafana/Defaults.antt =====
-- `add_global_variable` only adds variables.
use code_recipes.Common.{
  ◌≡◌, refl, sym, ap, ◌∙◌, Bool, true, false, if◌then◌else◌, Option, none, some, Option-cases, inl,
  inr, [], ◌∷◌,
}
use code_recipes.Common.Eq.{Str, str_eq, str_beq, str_beq_iff}
use code_recipes.Common.Dict.{lookup, insert, lookup-insert}
use code_recipes.Grafana.Target.{Target, global_variables, add_missing, add_global_variable}

-- The value of the first, or else of the second.
abbrev pub or_default : Option Str → Option Str → Option Str
or_default none d = d
or_default (some v) d = some v

key_none :
    (j k : Str) (target : Target) {o : Option Str}
    → j ≡ k
    → lookup j target ≡ o
    → lookup k target ≡ o
key_none j k target same e = ap (λ x. lookup x target) (sym same) ∙ e

at_key :
    (j k v : Str) (target : Target) (same : Bool) (d : Option Str)
    → (same ≡ true → lookup k target ≡ none)
    → or_default (if same then some v else lookup k target) d
      ≡ or_default (lookup k target) (if same then some v else d)
at_key j k v target true d h = rw (h refl) refl
at_key j k v target false d h = refl

old_key :
    (k : Str) (target : Target) (same : Bool) (v d : Option Str)
    → (same ≡ true → (w : Str) × (lookup k target ≡ some w))
    → or_default (lookup k target) d ≡ or_default (lookup k target) (if same then v else d)
old_key k target true v d h = rw ((h refl).1) refl
old_key k target false v d h = refl

lookup-add_missing :
    (more target : Target) (k : Str)
    → lookup k (add_missing more target) ≡ or_default (lookup k target) (lookup k more)
unfolding add_missing lookup
lookup-add_missing [] target k = elim (Option-cases (lookup k target)) [
  | inl e ↦ rw e refl
  | inr (v, e) ↦ rw e refl
]
lookup-add_missing ((j, v) ∷ more) target k = elim (Option-cases (lookup j target)) [
  | inl missing ↦
      let rest = lookup-add_missing more (insert j v target) k in
      rw missing (
        rest
        ∙ ap (λ o. or_default o (lookup k more)) (lookup-insert j k v target)
        ∙ at_key j k v target (str_beq j k) (lookup k more)
            (λ h. key_none j k target ((str_beq_iff j k).0 h) missing))
  | inr (w, there) ↦ rw there (
      lookup-add_missing more target k
      ∙ old_key k target (str_beq j k) (some v) (lookup k more)
          (λ h. (w, key_none j k target ((str_beq_iff j k).0 h) there)))
]

-- Each key of the target keeps its value, and any other has that of the global variables, if there is one.
pub lookup-add_global_variable :
    (target : Target) (k : Str)
    → lookup k (add_global_variable target)
      ≡ or_default (lookup k target) (lookup k global_variables)
unfolding add_global_variable
lookup-add_global_variable target k = lookup-add_missing global_variables target k
