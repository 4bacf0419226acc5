-- ===== src/MinSql/Value.antt =====
-- `Value` and its comparisons, with those that `total_ordering` adds.
pub mod Order
use code_recipes.Common.{
  ℕ, ltb, ◌≡◌, ◌↔◌, refl, arith, Bool, true, false, not, ◌&&◌, ◌||◌, if◌then◌else◌, List, [], ◌∷◌,
}
use code_recipes.Common.Int.{ℤ, ltb_ℤ}
use code_recipes.Common.Eq.{Eq, Str, str_beq, str_beq_iff, int_beq, int_beq_iff}
use code_recipes.Common.Text.{codes}
use code_recipes.Common.Result.{Result, ok, err, ◌>>=◌}

pub data SqlError : Type 0 where
  column_already_exists no_such_column key_error type_error index_error : SqlError

abbrev pub Run {ℓ} : Type ℓ → Type ℓ
Run A = Result SqlError A

pub data Value : Type 0 where
  null : Value
  num : ℤ → Value
  str : Str → Value

-- `__str__` and `__repr__`: `str` of a number and `repr` of a text are parameters.
module _ (str_of : ℤ → Str) (repr_of : Str → Str) where
  abbrev str_value : Value → Str
  str_value null = codes "None"
  str_value (num i) = str_of i
  str_value (str s) = s

  abbrev repr_value : Value → Str
  repr_value null = codes "None"
  repr_value (num i) = str_of i
  repr_value (str s) = repr_of s

-- `__eq__`
abbrev pub same_value : Value → Value → Bool
same_value null null = true
same_value null (num b) = false
same_value null (str b) = false
same_value (num a) null = false
same_value (num a) (num b) = int_beq a b
same_value (num a) (str b) = false
same_value (str a) null = false
same_value (str a) (num b) = false
same_value (str a) (str b) = str_beq a b

pub same_value_iff : (a b : Value) → (same_value a b ≡ true) ↔ (a ≡ b)
same_value_iff null null = ground arith
same_value_iff null (num b) = ground arith
same_value_iff null (str b) = ground arith
same_value_iff (num a) null = ground arith
same_value_iff (num a) (num b) = ground (arith, int_beq_iff a b)
same_value_iff (num a) (str b) = ground arith
same_value_iff (str a) null = ground arith
same_value_iff (str a) (num b) = ground arith
same_value_iff (str a) (str b) = ground (arith, str_beq_iff a b)

instance abbrev pub value_eq : Eq Value
value_eq = record { beq = same_value; beq_iff = same_value_iff }

-- The order of two lists of Python: that of the first entries that differ.
module _ {A : Type 0} (same lt : A → A → Bool) where
  abbrev pub lt_list : List A → List A → Bool
  lt_list [] [] = false
  lt_list [] (y ∷ ys) = true
  lt_list (x ∷ xs) [] = false
  lt_list (x ∷ xs) (y ∷ ys) = if same x y then lt_list xs ys else lt x y

abbrev pub nat_same : ℕ → ℕ → Bool
nat_same a b = not (ltb a b || ltb b a)

abbrev pub lt_str : Str → Str → Bool
lt_str a b = lt_list nat_same ltb a b

-- `__lt__`
abbrev pub lt : Value → Value → Run Bool
lt null null = ok false
lt null (num b) = ok true
lt null (str b) = ok true
lt (num a) null = ok false
lt (num a) (num b) = ok (ltb_ℤ a b)
lt (num a) (str b) = err type_error
lt (str a) null = ok false
lt (str a) (num b) = err type_error
lt (str a) (str b) = ok (lt_str a b)

-- The operators that a condition may name.
pub data Cmp : Type 0 where
  is_lt is_le is_gt is_ge is_eq is_ne : Cmp

-- `eval(f"lv {op} rv")`
abbrev pub holds : Cmp → Value → Value → Run Bool
holds is_lt a b = lt a b
holds is_le a b = lt a b >>= λ less. ok (less || same_value a b)
holds is_gt a b = lt a b >>= λ less. ok (not less && not (same_value a b))
holds is_ge a b = lt a b >>= λ less. ok (not less)
holds is_eq a b = ok (same_value a b)
holds is_ne a b = ok (not (same_value a b))

-- No TypeError between the two.
abbrev pub are_comparable : Value → Value → Bool
are_comparable (num a) (str b) = false
are_comparable (str a) (num b) = false
are_comparable a b = true

-- The order of `lt`, which is this one where it raises nothing, with numbers before texts.
abbrev pub below : Value → Value → Bool
below null null = false
below null (num b) = true
below null (str b) = true
below (num a) null = false
below (num a) (num b) = ltb_ℤ a b
below (num a) (str b) = true
below (str a) null = false
below (str a) (num b) = false
below (str a) (str b) = lt_str a b

-- Lists of values as keys of `sorted`.
abbrev pub Key : Type 0
Key = List Value

abbrev pub lt_key : Key → Key → Bool
lt_key a b = lt_list same_value below a b

abbrev pub comparable_keys : Key → Key → Bool
comparable_keys [] [] = true
comparable_keys [] (y ∷ ys) = true
comparable_keys (x ∷ xs) [] = true
comparable_keys (x ∷ xs) (y ∷ ys) =
    if same_value x y then comparable_keys xs ys else are_comparable x y
