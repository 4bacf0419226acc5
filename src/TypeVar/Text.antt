-- ===== src/TypeVar/Text.antt =====
-- The texts of `Type` and `Func`, and the hash of a type.
use code_recipes.Common.{ℕ, ◌≡◌, ap, true, [], ◌++◌}
use code_recipes.Common.Eq.{Str}
use code_recipes.Common.Text.{codes}
use code_recipes.TypeVar.Types.{Ty, name, tuple, Tys, none_left, with_first, same_ty}
use code_recipes.TypeVar.Fits.{same_ty-eq}

pub record Func : Type 0 where
  pub params : Tys
  pub output : Ty

-- `__str__`, which `__repr__` calls, with the join of the texts of the parts by commas.
unfoldable mutual
  pub str_ty : Ty → Str
  str_ty (name v) = v
  str_ty (tuple none_left) = codes "()"
  str_ty (tuple (with_first t ts)) = codes "(" ++ (str_ty t ++ (str_rest ts ++ codes ")"))

  pub str_rest : Tys → Str
  str_rest none_left = []
  str_rest (with_first t ts) = codes ", " ++ (str_ty t ++ str_rest ts)

unfoldable pub str_func : Func → Str
unfolding str_ty
str_func f = codes "func" ++ (str_ty (tuple f.params) ++ (codes "->" ++ str_ty f.output))

-- `hash` of a text is a parameter.
module _ (hash : Str → ℕ) where
  abbrev pub hash_ty : Ty → ℕ
  hash_ty t = hash (str_ty t)

  -- Equal types have the same hash, as a dict wants of its keys.
  hash_ty-same_ty : (t u : Ty) → same_ty t u ≡ true → hash_ty t ≡ hash_ty u
  hash_ty-same_ty t u h = ap hash_ty (same_ty-eq t u h)
