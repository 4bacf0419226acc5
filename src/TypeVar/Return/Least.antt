-- ===== src/TypeVar/Return/Least.antt =====
-- The answer for arguments that fit the parameters.
use code_recipes.Common.{ℕ, ◌≡◌, ap, ◌∙◌, Bool}
use code_recipes.Common.Result.{◌>>=◌}
use code_recipes.TypeVar.Types.{Tys, Bindings}
use code_recipes.TypeVar.Text.{Func}
use code_recipes.TypeVar.Fits.{FitAll, Extends, bind_params-Fits}
use code_recipes.TypeVar.Least.{bind_params-Within}
use code_recipes.TypeVar.Return.{get_return_type}
use code_recipes.TypeVar.Return.Loop.{expected, get_return_type-expected}

module _ (is_upper : ℕ → Bool) where
  -- If the arguments fit the parameters under bindings `m`, they also do under bindings that say nothing
  -- but what `m` says, and a call answers the output with these in place of its variables, or raises
  -- TypeMisMatch when they do not bind all of them.
  pub get_return_type-FitAll :
      (f : Func) (args : Tys) (m : Bindings)
      → FitAll is_upper m f.params args
      → (n : Bindings) × Extends is_upper n m
        × FitAll is_upper n f.params args
        × ((get_return_type is_upper f args).1 ≡ expected is_upper f.output n)
  get_return_type-FitAll f args m h =
      let made = bind_params-Within is_upper m f.params args h in
      (
        made.0,
        made.2,
        bind_params-Fits is_upper f.params args made.0 made.1,
        get_return_type-expected is_upper f args
            ∙ ap (λ r. r >>= expected is_upper f.output) made.1,
      )
