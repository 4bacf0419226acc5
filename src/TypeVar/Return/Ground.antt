-- ===== src/TypeVar/Return/Ground.antt =====
-- Types without type variables: what the bindings are, and what the substitution does to them.
use code_recipes.Common.{
  ℕ, zero, suc, ◌+◌, ◌≡◌, refl, sym, subst, ap, ◌∙◌, arith, Bool, true, false, ◌&&◌, if◌then◌else◌,
  Bool-cases, ◌⊎◌, inl, inr, Option, none, some, List, [], ◌∷◌, ◌++◌,
}
use code_recipes.Common.Eq.{Str, str_eq, str_beq}
use code_recipes.Common.Dict.{lookup, lookup-nil, insert, lookup-insert}
use code_recipes.Common.Result.{ok}
use code_recipes.TypeVar.Types.{
  Ty, name, tuple, Tys, none_left, with_first, zip, sizes, Bindings, is_type_var, bind_loop,
  bind_params,
}
use code_recipes.TypeVar.Fits.{
  bind_loop-nil, bind_loop-zero, bind_loop-mixed, bind_loop-tuple, bind_loop-name, bind_params-ok,
}
use code_recipes.TypeVar.Return.Fills.{
  subst_ty, subst_tys, all_bound, each_bound, bound_or, is_bound,
}
use code_recipes.TypeVar.Return.Sound.{and_both}

with_first_cong : {t u : Ty} {ts us : Tys} → t ≡ u → ts ≡ us → with_first t ts ≡ with_first u us
with_first_cong e f = cc

module _ (is_upper : ℕ → Bool) where
  -- No type variable stands in the type.
  unfoldable mutual
    pub no_variable : Ty → Bool
    no_variable (name s) = if is_type_var is_upper s then false else true
    no_variable (tuple ts) = no_variables ts

    pub no_variables : Tys → Bool
    no_variables none_left = true
    no_variables (with_first t ts) = no_variable t && no_variables ts

  abbrev pub AllGround : Bindings → Type 0
  AllGround m = (k : Str) (t : Ty) → lookup k m ≡ some t → no_variable t ≡ true

  abbrev QueueGround : List (Ty × Ty) → Type 0
  QueueGround [] = Unit
  QueueGround ((p, a) ∷ q) = (no_variable a ≡ true) × QueueGround q

  zip-QueueGround :
      (q : List (Ty × Ty)) (ps as' : Tys)
      → QueueGround q
      → no_variables as' ≡ true
      → QueueGround (q ++ zip ps as')
  unfolding no_variable
  zip-QueueGround [] none_left as' g h = tt
  zip-QueueGround [] (with_first p ps) none_left g h = tt
  zip-QueueGround [] (with_first p ps) (with_first a as') g h =
      let both = and_both (no_variable a) (no_variables as') h in
      (both.0, zip-QueueGround [] ps as' tt both.1)
  zip-QueueGround (x ∷ q) ps as' g h = (g.0, zip-QueueGround q ps as' g.1 h)

  insert-AllGround :
      (m : Bindings) (s : Str) (arg : Ty)
      → AllGround m
      → no_variable arg ≡ true
      → AllGround (insert s arg m)
  insert-AllGround m s arg g h k t e = elim (Bool-cases (str_beq s k)) [
    | inl same ↦
        (let e' : some arg ≡ some t = rw same at (sym (lookup-insert s k arg m) ∙ e) in
          ground (arith, h))
    | inr other ↦ g k t (rw other at (sym (lookup-insert s k arg m) ∙ e))
  ]

  went_on-AllGround :
      (m m' : Bindings) (s : Str) (arg : Ty)
      → AllGround m
      → no_variable arg ≡ true
      → (m ≡ m') ⊎ (insert s arg m ≡ m')
      → AllGround m'
  went_on-AllGround m m' s arg g h (inl e) = subst AllGround e g
  went_on-AllGround m m' s arg g h (inr e) = subst AllGround e (insert-AllGround m s arg g h)

  bind_loop-AllGround :
      (fuel : ℕ) (m : Bindings) (q : List (Ty × Ty)) (n : Bindings)
      → bind_loop is_upper fuel m q ≡ ok n
      → AllGround m
      → QueueGround q
      → AllGround n
  unfolding no_variable
  bind_loop-AllGround zero m q n h g b = absurd (bind_loop-zero is_upper m n q h)
  bind_loop-AllGround (suc fuel) m [] n h g b =
      subst AllGround (bind_loop-nil is_upper fuel m n h) g
  bind_loop-AllGround (suc fuel) m ((tuple ps, name a) ∷ q) n h g b =
      absurd (bind_loop-mixed is_upper fuel m n ps a q h)
  bind_loop-AllGround (suc fuel) m ((tuple ps, tuple as') ∷ q) n h g b =
      bind_loop-AllGround fuel m (q ++ zip ps as') n
        (bind_loop-tuple is_upper fuel m n ps as' q h).1 g (zip-QueueGround q ps as' b.1 b.0)
  bind_loop-AllGround (suc fuel) m ((name s, arg) ∷ q) n h g b =
      let step = bind_loop-name is_upper fuel m n s arg q h in
      bind_loop-AllGround fuel step.0 q n step.3 (went_on-AllGround m step.0 s arg g b.0 step.2) b.1

  pub bind_params-AllGround :
      (params args : Tys) (m : Bindings)
      → bind_params is_upper params args ≡ ok m
      → no_variables args ≡ true
      → AllGround m
  bind_params-AllGround params args m h g =
      bind_loop-AllGround (sizes params + 1) [] (zip params args) m
        (bind_params-ok is_upper params args m h).1
        (λ k t e. absurd (let e' = sym (lookup-nil k) ∙ e in cc))
        (zip-QueueGround [] params args tt g)

  bound-no_variable :
      (m : Bindings) (s : Str) (o : Option Ty)
      → AllGround m
      → lookup s m ≡ o
      → is_bound o ≡ true
      → no_variable (bound_or o (name s)) ≡ true
  bound-no_variable m s none g e h = ground arith
  bound-no_variable m s (some t) g e h = g s t e

  mutual
    unfolding no_variable subst_ty all_bound

    -- All variables give way to types without variables.
    pub no_variable-subst_ty :
        (m : Bindings) (t : Ty)
        → AllGround m
        → all_bound is_upper m t ≡ true
        → no_variable (subst_ty is_upper m t) ≡ true
    no_variable-subst_ty m (name s) g h = elim (Bool-cases (is_type_var is_upper s)) [
      | inl v ↦ rw v (bound-no_variable m s (lookup s m) g refl (rw v at h))
      | inr v ↦ rw (v, v) refl
    ]
    no_variable-subst_ty m (tuple ts) g h = no_variables-subst_tys m ts g h

    no_variables-subst_tys :
        (m : Bindings) (ts : Tys)
        → AllGround m
        → each_bound is_upper m ts ≡ true
        → no_variables (subst_tys is_upper m ts) ≡ true
    no_variables-subst_tys m none_left g h = refl
    no_variables-subst_tys m (with_first t ts) g h =
        let both = and_both (all_bound is_upper m t) (each_bound is_upper m ts) h in
        rw (no_variable-subst_ty m t g both.0) (no_variables-subst_tys m ts g both.1)

  mutual
    unfolding no_variable subst_ty all_bound

    pub all_bound-no_variable :
        (m : Bindings) (t : Ty) → no_variable t ≡ true → all_bound is_upper m t ≡ true
    all_bound-no_variable m (name s) h = elim (Bool-cases (is_type_var is_upper s)) [
      | inl v ↦ (let h' = rw v at h in ground arith)
      | inr v ↦ rw v refl
    ]
    all_bound-no_variable m (tuple ts) h = each_bound-no_variables m ts h

    each_bound-no_variables :
        (m : Bindings) (ts : Tys) → no_variables ts ≡ true → each_bound is_upper m ts ≡ true
    each_bound-no_variables m none_left h = refl
    each_bound-no_variables m (with_first t ts) h =
        let both = and_both (no_variable t) (no_variables ts) h in
        rw (all_bound-no_variable m t both.0) (each_bound-no_variables m ts both.1)

  mutual
    unfolding no_variable subst_ty

    pub subst_ty-no_variable :
        (m : Bindings) (t : Ty) → no_variable t ≡ true → subst_ty is_upper m t ≡ t
    subst_ty-no_variable m (name s) h = elim (Bool-cases (is_type_var is_upper s)) [
      | inl v ↦ (let h' = rw v at h in ground arith)
      | inr v ↦ rw v refl
    ]
    subst_ty-no_variable m (tuple ts) h = ap tuple (subst_tys-no_variables m ts h)

    subst_tys-no_variables :
        (m : Bindings) (ts : Tys) → no_variables ts ≡ true → subst_tys is_upper m ts ≡ ts
    subst_tys-no_variables m none_left h = refl
    subst_tys-no_variables m (with_first t ts) h =
        let both = and_both (no_variable t) (no_variables ts) h in
        with_first_cong (subst_ty-no_variable m t both.0) (subst_tys-no_variables m ts both.1)
