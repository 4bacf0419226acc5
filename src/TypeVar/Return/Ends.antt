-- ===== src/TypeVar/Return/Ends.antt =====
-- What `get_return_type` answers, and that both of its loops end.
use code_recipes.Common.{ℕ, ◌≡◌, ◌≢◌, sym, ◌∙◌, arith, Bool, Bool-cases, inl, inr}
use code_recipes.Common.Result.{ok, err, ◌>>=◌}
use code_recipes.TypeVar.Types.{out_of_fuel, Run, Ty, Tys, Bindings, bind_params}
use code_recipes.TypeVar.Text.{Func}
use code_recipes.TypeVar.Ends.{bind_params-ends}
use code_recipes.TypeVar.Return.{get_return_type}
use code_recipes.TypeVar.Return.Fills.{all_bound}
use code_recipes.TypeVar.Return.Loop.{expected, get_return_type-expected}

module _ (is_upper : ℕ → Bool) where
  expected-ends :
      (output : Ty) (r : Run Bindings)
      → r ≢ err out_of_fuel
      → (r >>= expected is_upper output) ≢ err out_of_fuel
  expected-ends output (err e) h = λ g. ground (arith, h)
  expected-ends output (ok m) h = elim (Bool-cases (all_bound is_upper m output)) [
    | inl b ↦ rw b (λ e. ground arith)
    | inr b ↦ rw b (λ e. ground arith)
  ]

  get_return_type-ends :
      (f : Func) (args : Tys) → (get_return_type is_upper f args).1 ≢ err out_of_fuel
  get_return_type-ends f args h =
      expected-ends f.output (bind_params is_upper f.params args)
        (bind_params-ends is_upper f.params args)
        (sym (get_return_type-expected is_upper f args) ∙ h)

  -- For any function and arguments, a call answers the output type with the bindings of the first loop in
  -- place of all its variables; it raises TypeMisMatch when a variable of the output is not bound, and
  -- what the first loop raises. Neither loop takes more rounds than its fuel, the number of the names and
  -- tuples in the parameters or in the output and one.
  pub get_return_type_lem :
      (f : Func) (args : Tys)
      → ((get_return_type is_upper f args).1
          ≡ (bind_params is_upper f.params args >>= expected is_upper f.output))
        × ((get_return_type is_upper f args).1 ≢ err out_of_fuel)
  get_return_type_lem f args =
      (get_return_type-expected is_upper f args, get_return_type-ends f args)
