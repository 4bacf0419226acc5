-- ===== src/TypeVar/Return.antt =====
-- The second loop of `get_return_type`, which replaces the type variables of the output type in place,
-- and `get_return_type`. The output is a tree: no tuple object stands in it twice.
pub mod Places
pub mod Fills
pub mod Children
pub mod Loop
pub mod Sound
pub mod Least
pub mod Ground
pub mod Twice
pub mod Ends
use code_recipes.Common.{
  ℕ, zero, suc, ◌+◌, Bool, if◌then◌else◌, List, [], ◌∷◌, ◌++◌, Option, none, some,
}
use code_recipes.Common.Eq.{Str, str_eq}
use code_recipes.Common.Dict.{lookup}
use code_recipes.Common.Result.{ok, err}
use code_recipes.TypeVar.Types.{
  type_mismatch, index_error, out_of_fuel, Run, Ty, name, tuple, Tys, none_left, with_first,
  Bindings, size, is_type_var, bind_params,
}
use code_recipes.TypeVar.Text.{Func}

-- A place is `parent` and `idx`: the indices that lead from the root to it.
abbrev pub Place : Type 0
Place = List ℕ

-- `parent.l[idx] = v`: the root after it.
unfoldable mutual
  pub replace_at : Place → Ty → Ty → Ty
  replace_at [] v t = v
  replace_at (i ∷ p) v (name s) = name s
  replace_at (i ∷ p) v (tuple ts) = tuple (replace_in i p v ts)

  pub replace_in : ℕ → Place → Ty → Tys → Tys
  replace_in i p v none_left = none_left
  replace_in zero p v (with_first t ts) = with_first (replace_at p v t) ts
  replace_in (suc i) p v (with_first t ts) = with_first t (replace_in i p v ts)

-- `[(c, t, i) for i, c in enumerate(t.l)]`, from the index `i` on
unfoldable pub children : Place → ℕ → Tys → List (Ty × Place)
children p i none_left = []
children p i (with_first t ts) = (t, p ++ i ∷ []) ∷ children p (suc i) ts

-- The root, and whether an exception was raised.
abbrev pub Replaced : Type 0
Replaced = Ty × Run (Unit {0})

-- `root.l[0]`
abbrev pub first_of : Ty → Run Ty
first_of (tuple (with_first t ts)) = ok t
first_of other = err index_error

abbrev pub answer : Replaced → Run Ty
answer (root, ok done) = first_of root
answer (root, err e) = err e

-- The function's own `output` after the loop: a tuple is the object that the loop has changed.
abbrev pub output_after : Ty → Ty → Ty
output_after (tuple ts) (tuple (with_first t us)) = t
output_after output root = output

-- `if t not in type_map: raise`, or the replacement
abbrev pub replace_bound : Ty → Option Ty → (Ty → Replaced) → Replaced
replace_bound root none next = (root, err type_mismatch)
replace_bound root (some t) next = next t

module _ (is_upper : ℕ → Bool) where
  -- The loop over the queue `q` of the types to look at and their places.
  unfoldable pub replace_loop : ℕ → Bindings → Ty → List (Ty × Place) → Replaced
  replace_loop zero type_map root q = (root, err out_of_fuel)
  replace_loop (suc fuel) type_map root [] = (root, ok tt)
  replace_loop (suc fuel) type_map root ((tuple ts, p) ∷ q) =
      replace_loop fuel type_map root (q ++ children p 0 ts)
  replace_loop (suc fuel) type_map root ((name s, p) ∷ q) =
      let kept : Replaced = replace_loop fuel type_map root q in
      if is_type_var is_upper s
      then replace_bound root (lookup s type_map)
          (λ t. replace_loop fuel type_map (replace_at p t root) q)
      else kept

  -- The loop from `root = Type([f.output])`
  unfoldable pub replaced : Bindings → Ty → Replaced
  replaced type_map output =
      replace_loop (size output + 1) type_map (tuple (with_first output none_left))
        ((output, 0 ∷ []) ∷ [])

  abbrev pub with_output : Func → Replaced → Func × Run Ty
  with_output f r = (record f { output = output_after f.output r.0 }, answer r)

  abbrev pub returned : Func → Run Bindings → Func × Run Ty
  returned f (err e) = (f, err e)
  returned f (ok type_map) = with_output f (replaced type_map f.output)

  -- `get_return_type`: the function as it is left, and the type.
  unfoldable pub get_return_type : Func → Tys → Func × Run Ty
  get_return_type f args = returned f (bind_params is_upper f.params args)
