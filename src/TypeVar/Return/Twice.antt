-- ===== src/TypeVar/Return/Twice.antt =====
-- A second call of a function whose output is a tuple.
use code_recipes.Common.{ℕ, ◌≡◌, sym, ap, ◌∙◌, true, Bool}
use code_recipes.Common.Result.{ok, ◌>>=◌, >>=-eq-ok}
use code_recipes.TypeVar.Types.{Ty, tuple, Tys, Bindings, bind_params}
use code_recipes.TypeVar.Text.{Func}
use code_recipes.TypeVar.Return.{get_return_type}
use code_recipes.TypeVar.Return.Loop.{expected, get_return_type-ok, get_return_type-expected}
use code_recipes.TypeVar.Return.Sound.{expected-ok}
use code_recipes.TypeVar.Return.Ground.{
  no_variable, no_variables, bind_params-AllGround, no_variable-subst_ty, all_bound-no_variable,
  subst_ty-no_variable,
}

module _ (is_upper : ℕ → Bool) where
  expected-no_variable :
      (t : Ty) (m : Bindings) → no_variable is_upper t ≡ true → expected is_upper t m ≡ ok t
  expected-no_variable t m h =
      rw (all_bound-no_variable is_upper m t h) (ap ok (subst_ty-no_variable is_upper m t h))

  -- If a call with arguments without type variables answers the type `t`, and the output of the function
  -- is a tuple, then the call has put `t` in place of the output: a later call answers `t` as well, for
  -- any arguments that can be bound.
  pub get_return_type-again :
      (params args later ts : Tys) (t : Ty) (m : Bindings)
      → no_variables is_upper args ≡ true
      → (get_return_type is_upper (record { params = params; output = tuple ts }) args).1 ≡ ok t
      → bind_params is_upper params later ≡ ok m
      → (get_return_type is_upper
          (get_return_type is_upper (record { params = params; output = tuple ts }) args).0
          later).1
        ≡ ok t
  get_return_type-again params args later ts t m g h b =
      let f : Func = record { params = params; output = tuple ts } in
      let made =
        >>=-eq-ok (bind_params is_upper params args) (expected is_upper (tuple ts))
          (sym (get_return_type-expected is_upper f args) ∙ h) in
      let found = expected-ok is_upper (tuple ts) made.0 made.2 in
      let ground = bind_params-AllGround is_upper params args made.0 made.1 g in
      let plain =
        ap (no_variable is_upper) (sym found.1)
        ∙ no_variable-subst_ty is_upper made.0 (tuple ts) ground found.0 in
      let f' : Func = record { params = params; output = t } in
      let left : (get_return_type is_upper f args).0 ≡ f' =
        ap (λ r. r.0) (get_return_type-ok is_upper f args made.0 made.1 found.0)
        ∙ ap (λ o. record { params = params; output = o }) found.1 in
      ap (λ k. (get_return_type is_upper k later).1) left
      ∙ get_return_type-expected is_upper f' later
      ∙ ap (λ r. r >>= expected is_upper t) b
      ∙ expected-no_variable t m plain
