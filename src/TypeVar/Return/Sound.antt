-- ===== src/TypeVar/Return/Sound.antt =====
-- The type that `get_return_type` answers is one that the function's type allows.
use code_recipes.Common.{
  ℕ, ◌≡◌, refl, sym, subst, ◌∙◌, arith, Bool, true, false, ◌&&◌, Bool-cases, inl, inr, Option, none,
  some,
}
use code_recipes.Common.Eq.{Str, str_eq}
use code_recipes.Common.Dict.{lookup}
use code_recipes.Common.Result.{ok, >>=-eq-ok}
use code_recipes.TypeVar.Types.{
  Ty, name, tuple, Tys, none_left, with_first, Bindings, is_type_var, bind_params,
}
use code_recipes.TypeVar.Text.{Func}
use code_recipes.TypeVar.Fits.{
  Fits, same_name, bound, tuples, FitAll, none_fit, first_fits, bind_params-Fits,
}
use code_recipes.TypeVar.Return.{get_return_type}
use code_recipes.TypeVar.Return.Fills.{
  subst_ty, subst_tys, all_bound, each_bound, bound_or, is_bound,
}
use code_recipes.TypeVar.Return.Loop.{expected, get_return_type-expected}

pub and_both : (a b : Bool) → (a && b) ≡ true → (a ≡ true) × (b ≡ true)
and_both true b h = (refl, h)
and_both false b h = ground arith

module _ (is_upper : ℕ → Bool) where
  bound-Fits :
      (m : Bindings) (s : Str) (o : Option Ty)
      → is_type_var is_upper s ≡ true
      → lookup s m ≡ o
      → is_bound o ≡ true
      → Fits is_upper m (name s) (bound_or o (name s))
  bound-Fits m s none v e h = ground arith
  bound-Fits m s (some t) v e h = bound s t v e

  mutual
    unfolding subst_ty all_bound

    subst_ty-Fits :
        (m : Bindings) (t : Ty)
        → all_bound is_upper m t ≡ true
        → Fits is_upper m t (subst_ty is_upper m t)
    subst_ty-Fits m (name s) h = elim (Bool-cases (is_type_var is_upper s)) [
      | inl v ↦ rw v (bound-Fits m s (lookup s m) v refl (rw v at h))
      | inr v ↦ rw v (same_name s)
    ]
    subst_ty-Fits m (tuple ts) h = tuples ts (subst_tys is_upper m ts) (subst_tys-FitAll m ts h)

    subst_tys-FitAll :
        (m : Bindings) (ts : Tys)
        → each_bound is_upper m ts ≡ true
        → FitAll is_upper m ts (subst_tys is_upper m ts)
    subst_tys-FitAll m none_left h = none_fit
    subst_tys-FitAll m (with_first t ts) h =
        let both = and_both (all_bound is_upper m t) (each_bound is_upper m ts) h in
        first_fits (subst_ty-Fits m t both.0) (subst_tys-FitAll m ts both.1)

  pub expected-ok :
      (output : Ty) (m : Bindings) {t : Ty}
      → expected is_upper output m ≡ ok t
      → (all_bound is_upper m output ≡ true) × (subst_ty is_upper m output ≡ t)
  expected-ok output m h = elim (Bool-cases (all_bound is_upper m output)) [
    | inl b ↦ (b, (let h' = rw b at h in cc))
    | inr b ↦ (let h' = rw b at h in ground arith)
  ]

  -- If a call answers a type, there are bindings of the type variables under which the arguments fit
  -- the parameters and that type fits the output.
  pub get_return_type-Fits :
      (f : Func) (args : Tys) (t : Ty)
      → (get_return_type is_upper f args).1 ≡ ok t
      → (m : Bindings) × FitAll is_upper m f.params args × Fits is_upper m f.output t
  get_return_type-Fits f args t h =
      let made =
        >>=-eq-ok (bind_params is_upper f.params args) (expected is_upper f.output)
          (sym (get_return_type-expected is_upper f args) ∙ h) in
      let found = expected-ok f.output made.0 made.2 in
      (
        made.0,
        bind_params-Fits is_upper f.params args made.0 made.1,
        subst (Fits is_upper made.0 f.output) found.1 (subst_ty-Fits made.0 f.output found.0),
      )
