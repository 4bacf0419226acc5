-- ===== src/TypeVar/Tests.antt =====
-- A function of python/type_var.py with the parameters int, T and (str, T).
use code_recipes.Common.{ℕ, ◌≡◌, ◌≢◌, refl, Bool, true, ◌==◌, [], ◌∷◌}
use code_recipes.Common.Eq.{str_eq}
use code_recipes.Common.Text.{codes}
use code_recipes.Common.Result.{ok, err, ◌>>=◌}
use code_recipes.TypeVar.Types.{
  Ty, name, tuple, Tys, none_left, with_first, Bindings, out_of_fuel, size, bind_params,
}
use code_recipes.Common.Dict.{lookup}
use code_recipes.TypeVar.Fits.{
  Fits, same_name, bound, tuples, FitAll, none_fit, first_fits, Extends,
}
use code_recipes.TypeVar.Return.Least.{get_return_type-FitAll}
use code_recipes.TypeVar.Text.{Func, str_func}
use code_recipes.TypeVar.Return.{get_return_type, replaced, replace_loop, replace_at, children}
use code_recipes.TypeVar.Return.Loop.{expected}
use code_recipes.TypeVar.Return.Sound.{get_return_type-Fits}
use code_recipes.TypeVar.Return.Ground.{no_variable, no_variables}
use code_recipes.TypeVar.Return.Twice.{get_return_type-again}
use code_recipes.TypeVar.Return.Ends.{get_return_type_lem}

abbrev is_t : ℕ → Bool
is_t c = c == 84

abbrev params : Tys
params = with_first (name (codes "int")) (
    with_first (name (codes "T")) (
      with_first (tuple (with_first (name (codes "str")) (with_first (name (codes "T")) none_left)))
        none_left))

abbrev args : Tys
args = with_first (name (codes "int")) (
    with_first (tuple none_left) (
      with_first (tuple (with_first (name (codes "str")) (with_first (tuple none_left) none_left)))
        none_left))

abbrev bindings : Bindings
bindings = (codes "T", tuple none_left) ∷ []

bound_all : bind_params is_t params args ≡ ok bindings
unfolding bind_params size
bound_all = refl

abbrev pair_of : Func
pair_of = record {
  params = params;
  output = tuple (with_first (name (codes "T")) (with_first (name (codes "int")) none_left));
}

abbrev pair : Ty
pair = tuple (with_first (tuple none_left) (with_first (name (codes "int")) none_left))

answers : (get_return_type is_t pair_of args).1 ≡ ok pair
unfolding get_return_type replaced replace_loop replace_at children bind_params size
answers = refl

get_return_type_lem_example :
    ((get_return_type is_t pair_of args).1
      ≡ (bind_params is_t params args >>= expected is_t pair_of.output))
    × ((get_return_type is_t pair_of args).1 ≢ err out_of_fuel)
get_return_type_lem_example = get_return_type_lem is_t pair_of args

get_return_type-Fits_example :
    (m : Bindings) × FitAll is_t m params args × Fits is_t m pair_of.output pair
get_return_type-Fits_example = get_return_type-Fits is_t pair_of args pair answers

-- Bindings that say more than is asked for.
abbrev more_bindings : Bindings
more_bindings = (codes "T", tuple none_left) ∷ (codes "U", name (codes "int")) ∷ []

args_fit : FitAll is_t more_bindings params args
unfolding lookup
args_fit = first_fits (same_name (codes "int")) (
    first_fits (bound (codes "T") (tuple none_left) refl refl) (
      first_fits
        (tuples _ _ (
          first_fits (same_name (codes "str"))
            (first_fits (bound (codes "T") (tuple none_left) refl refl) none_fit)))
        none_fit))

get_return_type-FitAll_example :
    (n : Bindings) × Extends is_t n more_bindings
    × FitAll is_t n params args
    × ((get_return_type is_t pair_of args).1 ≡ expected is_t pair_of.output n)
get_return_type-FitAll_example = get_return_type-FitAll is_t pair_of args more_bindings args_fit

-- The second call has int for T.
abbrev ints : Tys
ints = with_first (name (codes "int")) (
    with_first (name (codes "int")) (
      with_first
        (tuple (with_first (name (codes "str")) (with_first (name (codes "int")) none_left)))
        none_left))

plain_args : no_variables is_t args ≡ true
unfolding no_variable
plain_args = refl

bound_ints : bind_params is_t params ints ≡ ok ((codes "T", name (codes "int")) ∷ [])
unfolding bind_params size
bound_ints = refl

get_return_type-again_example :
    (get_return_type is_t (get_return_type is_t pair_of args).0 ints).1 ≡ ok pair
get_return_type-again_example =
    get_return_type-again is_t params args ints
      (with_first (name (codes "T")) (with_first (name (codes "int")) none_left)) pair
      ((codes "T", name (codes "int")) ∷ []) plain_args answers bound_ints

shown :
    str_func (record { params = params; output = name (codes "T") })
    ≡ codes "func(int, T, (str, T))->T"
unfolding str_func
shown = refl
