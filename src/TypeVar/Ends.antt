-- ===== src/TypeVar/Ends.antt =====
-- The loop that binds the type variables ends: each round takes a name or a tuple off the queue.
use code_recipes.Common.{
  ℕ, zero, suc, ◌+◌, ◌≤◌, ◌<◌, ◌≡◌, ◌≢◌, refl, arith, Bool, true, false, not, ◌==◌, if◌then◌else◌,
  List, [], ◌∷◌, ◌++◌, Option, none, some,
}
use code_recipes.Common.Eq.{Str, str_eq}
use code_recipes.Common.Dict.{lookup, insert}
use code_recipes.Common.Result.{err}
use code_recipes.TypeVar.Types.{
  type_mismatch, out_of_fuel, Run, Ty, name, tuple, Tys, none_left, with_first, same_ty, count, zip,
  Bindings, size, sizes, is_type_var, bind_loop, bind_params,
}

abbrev pub queue_size : {B : Type 0} → List (Ty × B) → ℕ
queue_size [] = 0
queue_size ((p, a) ∷ q) = size p + queue_size q

pub size_name : (s : Str) → size (name s) ≡ 1
unfolding size
size_name s = refl

pub size_tuple : (ts : Tys) → size (tuple ts) ≡ suc (sizes ts)
unfolding size
size_tuple ts = refl

pub sizes_first : (t : Ty) (ts : Tys) → sizes (with_first t ts) ≡ size t + sizes ts
unfolding size
sizes_first t ts = refl

pub queue_size-zip :
    (q : List (Ty × Ty)) (ps as' : Tys) → queue_size (q ++ zip ps as') ≤ queue_size q + sizes ps
queue_size-zip [] none_left as' = omega arith
queue_size-zip [] (with_first p ps) none_left = omega arith
queue_size-zip [] (with_first p ps) (with_first a as') =
    omega (arith, queue_size-zip [] ps as', sizes_first p ps)
queue_size-zip ((p, a) ∷ q) ps as' = omega (arith, queue_size-zip q ps as')

abbrev mismatch : Run Bindings
mismatch = err type_mismatch

mismatch_lem : mismatch ≢ err out_of_fuel
mismatch_lem h = ground arith

module _ (is_upper : ℕ → Bool) where
  either_way :
      (b : Bool) (r s : Run Bindings)
      → r ≢ err out_of_fuel
      → s ≢ err out_of_fuel
      → (if b then r else s) ≢ err out_of_fuel
  either_way true r s h g = h
  either_way false r s h g = g

  looked_up :
      (o : Option Ty) (arg : Ty) (bound kept : Run Bindings)
      → bound ≢ err out_of_fuel
      → kept ≢ err out_of_fuel
      → elim o [ none ↦ bound | some t ↦ (if same_ty t arg then kept else err type_mismatch) ]
        ≢ err out_of_fuel
  looked_up none arg bound kept h g = h
  looked_up (some t) arg bound kept h g =
      either_way (same_ty t arg) kept (err type_mismatch) g mismatch_lem

  bind_loop-ends :
      (fuel : ℕ) (m : Bindings) (q : List (Ty × Ty))
      → queue_size q < fuel
      → bind_loop is_upper fuel m q ≢ err out_of_fuel
  unfolding bind_loop
  bind_loop-ends zero m q h = ground arith
  bind_loop-ends (suc fuel) m [] h = λ e. cc
  bind_loop-ends (suc fuel) m ((tuple ps, name a) ∷ q) h = mismatch_lem
  bind_loop-ends (suc fuel) m ((tuple ps, tuple as') ∷ q) h =
      either_way (count ps == count as') _ (err type_mismatch)
        (bind_loop-ends fuel m (q ++ zip ps as')
          (omega (arith, queue_size-zip q ps as', size_tuple ps)))
        mismatch_lem
  bind_loop-ends (suc fuel) m ((name s, arg) ∷ q) h =
      let shorter : queue_size q < fuel = omega (arith, size_name s) in
      let kept = bind_loop-ends fuel m q shorter in
      either_way (same_ty (name s) arg) _ _ kept (
        either_way (not (is_type_var is_upper s)) (err type_mismatch) _ mismatch_lem
          (looked_up (lookup s m) arg _ _ (bind_loop-ends fuel (insert s arg m) q shorter) kept))

  pub queue_size-params : (params args : Tys) → queue_size (zip params args) < sizes params + 1
  queue_size-params params args = omega (arith, queue_size-zip [] params args)

  -- The loop takes no more rounds than the parameters have names and tuples, for any arguments.
  pub bind_params-ends : (params args : Tys) → bind_params is_upper params args ≢ err out_of_fuel
  unfolding bind_params
  bind_params-ends params args =
      either_way (count params == count args) _ (err type_mismatch)
        (bind_loop-ends (sizes params + 1) [] (zip params args) (queue_size-params params args))
        mismatch_lem
