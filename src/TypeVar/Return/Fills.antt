-- ===== src/TypeVar/Return/Fills.antt =====
-- The replacements that are still to do, done at once.
use code_recipes.Common.{
  ℕ, ◌≡◌, refl, sym, ap, ◌∙◌, Bool, true, false, ◌&&◌, if◌then◌else◌, List, [], ◌∷◌, ◌++◌, Option,
  none, some,
}
use code_recipes.Common.Eq.{str_eq}
use code_recipes.Common.Dict.{lookup}
use code_recipes.TypeVar.Types.{Ty, name, tuple, Tys, none_left, with_first, Bindings, is_type_var}
use code_recipes.TypeVar.Return.{Place, replace_at}
use code_recipes.TypeVar.Return.Places.{
  get_at, Apart, Apart-sym, get_at-replace_at, replace_at_comm,
}

abbrev pub Queue : Type 0
Queue = List (Ty × Place)

-- A place is apart from the places of the queue.
abbrev pub AllApart : Place → Queue → Type 0
AllApart p [] = Unit
AllApart p ((t, o) ∷ q) = Apart p o × AllApart p q

-- Each type stands at its place in the root, and the places are apart from each other.
abbrev pub Stands : Ty → Queue → Type 0
Stands root [] = Unit
Stands root ((t, p) ∷ q) = (get_at p root ≡ some t) × AllApart p q × Stands root q

-- The type with the bindings in place of the variables, where they are bound.
abbrev pub bound_or : Option Ty → Ty → Ty
bound_or none t = t
bound_or (some u) t = u

abbrev pub is_bound : Option Ty → Bool
is_bound none = false
is_bound (some u) = true

module _ (is_upper : ℕ → Bool) (m : Bindings) where
  unfoldable mutual
    pub subst_ty : Ty → Ty
    subst_ty (name s) = if is_type_var is_upper s then bound_or (lookup s m) (name s) else name s
    subst_ty (tuple ts) = tuple (subst_tys ts)

    pub subst_tys : Tys → Tys
    subst_tys none_left = none_left
    subst_tys (with_first t ts) = with_first (subst_ty t) (subst_tys ts)

  -- All variables of the type are bound.
  unfoldable mutual
    pub all_bound : Ty → Bool
    all_bound (name s) = if is_type_var is_upper s then is_bound (lookup s m) else true
    all_bound (tuple ts) = each_bound ts

    pub each_bound : Tys → Bool
    each_bound none_left = true
    each_bound (with_first t ts) = all_bound t && each_bound ts

  abbrev pub queue_bound : Queue → Bool
  queue_bound [] = true
  queue_bound ((t, p) ∷ q) = all_bound t && queue_bound q

  -- The root after the replacements in all types of the queue.
  abbrev pub fill : Ty → Queue → Ty
  fill root [] = root
  fill root ((t, p) ∷ q) = fill (replace_at p (subst_ty t) root) q

  pub fill-append : (root : Ty) (q r : Queue) → fill root (q ++ r) ≡ fill (fill root q) r
  fill-append root [] r = refl
  fill-append root ((t, p) ∷ q) r = fill-append (replace_at p (subst_ty t) root) q r

  pub get_at-fill :
      (p : Place) (root : Ty) (q : Queue) → AllApart p q → get_at p (fill root q) ≡ get_at p root
  get_at-fill p root [] h = refl
  get_at-fill p root ((t, o) ∷ q) h =
      get_at-fill p (replace_at o (subst_ty t) root) q h.1
      ∙ get_at-replace_at p o (subst_ty t) root h.0

  pub fill-replace_at :
      (p : Place) (v root : Ty) (q : Queue)
      → AllApart p q
      → fill (replace_at p v root) q ≡ replace_at p v (fill root q)
  fill-replace_at p v root [] h = refl
  fill-replace_at p v root ((t, o) ∷ q) h =
      ap (λ r. fill r q) (sym (replace_at_comm p o v (subst_ty t) root h.0))
      ∙ fill-replace_at p v (replace_at o (subst_ty t) root) q h.1

pub Stands-replace_at :
    (p : Place) (v root : Ty) (q : Queue)
    → AllApart p q
    → Stands root q
    → Stands (replace_at p v root) q
Stands-replace_at p v root [] h s = tt
Stands-replace_at p v root ((t, o) ∷ q) h s = (
  get_at-replace_at o p v root (Apart-sym p o h.0) ∙ s.0,
  s.1,
  Stands-replace_at p v root q h.1 s.2,
)
