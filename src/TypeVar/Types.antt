-- ===== src/TypeVar/Types.antt =====
-- `Type`, and the first loop of `get_return_type`, which binds the type variables.
use code_recipes.Common.{
  ℕ, zero, suc, ◌+◌, Bool, true, false, not, ◌&&◌, ◌==◌, if◌then◌else◌, List, [], ◌∷◌, ◌++◌, none,
  some,
}
use code_recipes.Common.Eq.{Str, str_eq, str_beq}
use code_recipes.Common.Dict.{Dict, lookup, insert}
use code_recipes.Common.Result.{Result, ok, err}

pub data Error : Type 0 where
  type_mismatch index_error out_of_fuel : Error

abbrev pub Run {ℓ} : Type ℓ → Type ℓ
Run A = Result Error A

-- A type is a name, `v`, or a tuple of types, `l`.
mutual
  pub data Ty : Type 0 where
    name : Str → Ty
    tuple : Tys → Ty

  pub data Tys : Type 0 where
    none_left : Tys
    with_first : Ty → Tys → Tys

-- `__eq__`
unfoldable mutual
  pub same_ty : Ty → Ty → Bool
  same_ty (name s) (name t) = str_beq s t
  same_ty (name s) (tuple us) = false
  same_ty (tuple ts) (name t) = false
  same_ty (tuple ts) (tuple us) = same_tys ts us

  pub same_tys : Tys → Tys → Bool
  same_tys none_left none_left = true
  same_tys none_left (with_first u us) = false
  same_tys (with_first t ts) none_left = false
  same_tys (with_first t ts) (with_first u us) = same_ty t u && same_tys ts us

abbrev pub count : Tys → ℕ
count none_left = 0
count (with_first t ts) = suc (count ts)

-- `zip(params, args)`
abbrev pub zip : Tys → Tys → List (Ty × Ty)
zip none_left us = []
zip (with_first t ts) none_left = []
zip (with_first t ts) (with_first u us) = (t, u) ∷ zip ts us

abbrev pub Bindings : Type 0
Bindings = Dict Str Ty

-- The number of names and tuples in a type.
unfoldable mutual
  pub size : Ty → ℕ
  size (name s) = 1
  size (tuple ts) = suc (sizes ts)

  pub sizes : Tys → ℕ
  sizes none_left = 0
  sizes (with_first t ts) = size t + sizes ts

-- `str.isupper` of a text of one character is a parameter.
module _ (is_upper : ℕ → Bool) where
  abbrev pub is_type_var : Str → Bool
  is_type_var [] = false
  is_type_var (c ∷ []) = is_upper c
  is_type_var (c ∷ d ∷ cs) = false

  -- The loop over the queue `q` of parameters and arguments.
  unfoldable pub bind_loop : ℕ → Bindings → List (Ty × Ty) → Run Bindings
  unfolding same_ty lookup insert
  bind_loop zero type_map q = err out_of_fuel
  bind_loop (suc fuel) type_map [] = ok type_map
  bind_loop (suc fuel) type_map ((tuple ps, name a) ∷ q) = err type_mismatch
  bind_loop (suc fuel) type_map ((tuple ps, tuple as') ∷ q) =
      let rest : Run Bindings = bind_loop fuel type_map (q ++ zip ps as') in
      if count ps == count as' then rest else err type_mismatch
  bind_loop (suc fuel) type_map ((name s, arg) ∷ q) =
      let kept : Run Bindings = bind_loop fuel type_map q in
      let bound : Run Bindings = bind_loop fuel (insert s arg type_map) q in
      if same_ty (name s) arg
      then kept
      else if not (is_type_var s)
      then err type_mismatch
      else elim (lookup s type_map) [
        | none ↦ bound
        | some t ↦ (if same_ty t arg then kept else err type_mismatch)
      ]

  -- The map that the loop makes for parameters and arguments.
  unfoldable pub bind_params : Tys → Tys → Run Bindings
  unfolding bind_loop
  bind_params params args =
      if count params == count args
      then bind_loop (sizes params + 1) [] (zip params args)
      else err type_mismatch
