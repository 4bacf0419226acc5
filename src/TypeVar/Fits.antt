-- ===== src/TypeVar/Fits.antt =====
-- What the bindings of `get_return_type` say of the parameters and the arguments.
use code_recipes.Common.{
  ℕ, zero, suc, ◌+◌, ◌≡◌, ◌≢◌, refl, sym, subst, ap, ◌∙◌, arith, Bool, true, false, ◌&&◌, ◌==◌,
  ==_iff, if◌then◌else◌, Bool-cases, ◌⊎◌, inl, inr, List, [], ◌∷◌, ◌++◌, Option, none, some,
}
use code_recipes.Common.Eq.{Str, str_eq, str_beq, str_beq_iff}
use code_recipes.Common.Dict.{lookup, insert, lookup-insert}
use code_recipes.Common.Result.{ok, err}
use code_recipes.TypeVar.Types.{
  type_mismatch, Ty, name, tuple, Tys, none_left, with_first, same_ty, same_tys, count, zip,
  Bindings, sizes, is_type_var, bind_loop, bind_params,
}

-- An argument fits a parameter under the bindings: the same name, the type a variable is bound to, or a
-- tuple whose types fit one by one.
mutual
  pub data Fits (is_upper : ℕ → Bool) (m : Bindings) : Ty → Ty → Type 0 where
    same_name : (s : Str) → Fits is_upper m (name s) (name s)
    bound :
        (s : Str) (arg : Ty)
        → is_type_var is_upper s ≡ true
        → lookup s m ≡ some arg
        → Fits is_upper m (name s) arg
    tuples : (ps as' : Tys) → FitAll is_upper m ps as' → Fits is_upper m (tuple ps) (tuple as')

  pub data FitAll (is_upper : ℕ → Bool) (m : Bindings) : Tys → Tys → Type 0 where
    none_fit : FitAll is_upper m none_left none_left
    first_fits :
        {p a : Ty} {ps as' : Tys}
        → Fits is_upper m p a
        → FitAll is_upper m ps as'
        → FitAll is_upper m (with_first p ps) (with_first a as')

and_true : (a b : Bool) → (a && b) ≡ true → (a ≡ true) × (b ≡ true)
and_true true b h = (refl, h)
and_true false b h = cc

with_first_cong : {t u : Ty} {ts us : Tys} → t ≡ u → ts ≡ us → with_first t ts ≡ with_first u us
with_first_cong e f = cc

mutual
  unfolding same_ty

  pub same_ty-eq : (t u : Ty) → same_ty t u ≡ true → t ≡ u
  same_ty-eq (name s) (name t) h = ap name ((str_beq_iff s t).0 h)
  same_ty-eq (name s) (tuple us) h = cc
  same_ty-eq (tuple ts) (name t) h = cc
  same_ty-eq (tuple ts) (tuple us) h = ap tuple (same_tys-eq ts us h)

  same_tys-eq : (ts us : Tys) → same_tys ts us ≡ true → ts ≡ us
  same_tys-eq none_left none_left h = refl
  same_tys-eq none_left (with_first u us) h = cc
  same_tys-eq (with_first t ts) none_left h = cc
  same_tys-eq (with_first t ts) (with_first u us) h =
      let both = and_true (same_ty t u) (same_tys ts us) h in
      with_first_cong (same_ty-eq t u both.0) (same_tys-eq ts us both.1)

module _ (is_upper : ℕ → Bool) where
  abbrev pub QueueFits : Bindings → List (Ty × Ty) → Type 0
  QueueFits m [] = Unit
  QueueFits m ((p, a) ∷ q) = Fits is_upper m p a × QueueFits m q

  abbrev pub Extends : Bindings → Bindings → Type 0
  Extends m n = (k : Str) (t : Ty) → lookup k m ≡ some t → lookup k n ≡ some t

  zip-FitAll :
      (m : Bindings) (ps as' : Tys) (q : List (Ty × Ty))
      → count ps ≡ count as'
      → QueueFits m (q ++ zip ps as')
      → QueueFits m q × FitAll is_upper m ps as'
  zip-FitAll m none_left none_left [] e f = (tt, none_fit)
  zip-FitAll m none_left (with_first a as') [] e f = ground arith
  zip-FitAll m (with_first p ps) none_left [] e f = ground arith
  zip-FitAll m (with_first p ps) (with_first a as') [] e f =
      let rest = zip-FitAll m ps as' [] (omega arith) f.1 in (tt, first_fits f.0 rest.1)
  zip-FitAll m ps as' (x ∷ q) e f =
      let rest = zip-FitAll m ps as' q e f.1 in ((f.0, rest.0), rest.1)

  -- The steps of the loop.
  pub bind_loop-nil :
      (fuel : ℕ) (m n : Bindings) → bind_loop is_upper (suc fuel) m [] ≡ ok n → m ≡ n
  unfolding bind_loop
  bind_loop-nil fuel m n h = cc

  pub bind_loop-zero : (m n : Bindings) (q : List (Ty × Ty)) → bind_loop is_upper zero m q ≢ ok n
  unfolding bind_loop
  bind_loop-zero m n q h = cc

  pub bind_loop-mixed :
      (fuel : ℕ) (m n : Bindings) (ps : Tys) (a : Str) (q : List (Ty × Ty))
      → bind_loop is_upper (suc fuel) m ((tuple ps, name a) ∷ q) ≢ ok n
  unfolding bind_loop
  bind_loop-mixed fuel m n ps a q h = cc

  pub bind_loop-tuple :
      (fuel : ℕ) (m n : Bindings) (ps as' : Tys) (q : List (Ty × Ty))
      → bind_loop is_upper (suc fuel) m ((tuple ps, tuple as') ∷ q) ≡ ok n
      → (count ps ≡ count as') × (bind_loop is_upper fuel m (q ++ zip ps as') ≡ ok n)
  unfolding bind_loop
  bind_loop-tuple fuel m n ps as' q h = elim (Bool-cases (count ps == count as')) [
    | inl e ↦ ((==_iff (count ps) (count as')).0 e, rw e at h)
    | inr e ↦ (let h' = rw e at h in cc)
  ]

  insert-Extends :
      (m : Bindings) (s : Str) (arg : Ty) → lookup s m ≡ none → Extends m (insert s arg m)
  insert-Extends m s arg missing k t e = elim (Bool-cases (str_beq s k)) [
    | inl same ↦
        let here : lookup k m ≡ none =
          ap (λ x. lookup x m) (sym ((str_beq_iff s k).0 same)) ∙ missing in
        (let clash = sym here ∙ e in cc)
    | inr other ↦ lookup-insert s k arg m ∙ (rw other e)
  ]

  insert-here : (m : Bindings) (s : Str) (arg : Ty) → lookup s (insert s arg m) ≡ some arg
  insert-here m s arg = lookup-insert s s arg m ∙ (rw ((str_beq_iff s s).1 refl) refl)

  -- After a name, the loop goes on with bindings that extend those before, and the argument fits.
  abbrev GoesOn : ℕ → Bindings → Str → Ty → List (Ty × Ty) → Bindings → Type 0
  GoesOn fuel m s arg q n =
      (m' : Bindings) × Extends m m'
      × ((m ≡ m') ⊎ (insert s arg m ≡ m'))
      × (bind_loop is_upper fuel m' q ≡ ok n)
      × ((arg ≡ name s) ⊎ ((is_type_var is_upper s ≡ true) × (lookup s m' ≡ some arg)))

  bound_name :
      (fuel : ℕ) (m n : Bindings) (s : Str) (arg : Ty) (q : List (Ty × Ty)) (o : Option Ty)
      → lookup s m ≡ o
      → is_type_var is_upper s ≡ true
      → elim o [
        | none ↦ bind_loop is_upper fuel (insert s arg m) q
        | some t ↦ (if same_ty t arg then bind_loop is_upper fuel m q else err type_mismatch)
      ]
        ≡ ok n
      → GoesOn fuel m s arg q n
  bound_name fuel m n s arg q none e v h =
      (insert s arg m, insert-Extends m s arg e, inr refl, h, inr (v, insert-here m s arg))
  bound_name fuel m n s arg q (some t) e v h = elim (Bool-cases (same_ty t arg)) [
    | inl f ↦ (m, λ k u g. g, inl refl, rw f at h, inr (v, e ∙ ap some (same_ty-eq t arg f)))
    | inr f ↦ (let h' = rw f at h in cc)
  ]

  pub bind_loop-name :
      (fuel : ℕ) (m n : Bindings) (s : Str) (arg : Ty) (q : List (Ty × Ty))
      → bind_loop is_upper (suc fuel) m ((name s, arg) ∷ q) ≡ ok n
      → GoesOn fuel m s arg q n
  unfolding bind_loop
  bind_loop-name fuel m n s arg q h = elim (Bool-cases (same_ty (name s) arg)) [
    | inl e ↦ (m, λ k u g. g, inl refl, rw e at h, inl (sym (same_ty-eq (name s) arg e)))
    | inr e ↦
        let h' = rw e at h in
        elim (Bool-cases (is_type_var is_upper s)) [
          | inl v ↦ bound_name fuel m n s arg q (lookup s m) refl v (rw v at h')
          | inr v ↦ (let h'' = rw v at h' in cc)
        ]
  ]

  name-Fits :
      (m : Bindings) (s : Str) (arg : Ty)
      → (arg ≡ name s) ⊎ ((is_type_var is_upper s ≡ true) × (lookup s m ≡ some arg))
      → Fits is_upper m (name s) arg
  name-Fits m s arg (inl e) = subst (Fits is_upper m (name s)) (sym e) (same_name s)
  name-Fits m s arg (inr (v, e)) = bound s arg v e

  still :
      (m n : Bindings) (s : Str) (arg : Ty)
      → Extends m n
      → (arg ≡ name s) ⊎ ((is_type_var is_upper s ≡ true) × (lookup s m ≡ some arg))
      → (arg ≡ name s) ⊎ ((is_type_var is_upper s ≡ true) × (lookup s n ≡ some arg))
  still m n s arg x (inl e) = inl e
  still m n s arg x (inr (v, e)) = inr (v, x s arg e)

  bind_loop-Fits :
      (fuel : ℕ) (m : Bindings) (q : List (Ty × Ty)) (n : Bindings)
      → bind_loop is_upper fuel m q ≡ ok n
      → Extends m n × QueueFits n q
  bind_loop-Fits zero m q n h = absurd (bind_loop-zero m n q h)
  bind_loop-Fits (suc fuel) m [] n h =
      (λ k t e. subst (λ d. lookup k d ≡ some t) (bind_loop-nil fuel m n h) e, tt)
  bind_loop-Fits (suc fuel) m ((tuple ps, name a) ∷ q) n h =
      absurd (bind_loop-mixed fuel m n ps a q h)
  bind_loop-Fits (suc fuel) m ((tuple ps, tuple as') ∷ q) n h =
      let step = bind_loop-tuple fuel m n ps as' q h in
      let rest = bind_loop-Fits fuel m (q ++ zip ps as') n step.1 in
      let parts = zip-FitAll n ps as' q step.0 rest.1 in (rest.0, (tuples ps as' parts.1, parts.0))
  bind_loop-Fits (suc fuel) m ((name s, arg) ∷ q) n h =
      let step = bind_loop-name fuel m n s arg q h in
      let rest = bind_loop-Fits fuel step.0 q n step.3 in
      (
        λ k t e. rest.0 k t (step.1 k t e),
        (name-Fits n s arg (still step.0 n s arg rest.0 step.4), rest.1),
      )

  pub bind_params-ok :
      (params args : Tys) (m : Bindings)
      → bind_params is_upper params args ≡ ok m
      → (count params ≡ count args)
        × (bind_loop is_upper (sizes params + 1) [] (zip params args) ≡ ok m)
  unfolding bind_params
  bind_params-ok params args m h = elim (Bool-cases (count params == count args)) [
    | inl e ↦ ((==_iff (count params) (count args)).0 e, rw e at h)
    | inr e ↦ (let h' = rw e at h in cc)
  ]

  -- Arguments for which the loop makes bindings fit the parameters under them, one by one.
  pub bind_params-Fits :
      (params args : Tys) (m : Bindings)
      → bind_params is_upper params args ≡ ok m
      → FitAll is_upper m params args
  bind_params-Fits params args m h =
      let made = bind_params-ok params args m h in
      let looped = bind_loop-Fits (sizes params + 1) [] (zip params args) m made.1 in
      (zip-FitAll m params args [] made.0 looped.1).1
