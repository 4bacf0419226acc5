-- ===== src/TypeVar/Least.antt =====
-- Arguments that fit the parameters are bound by the loop, and the bindings are the least that do.
use code_recipes.Common.{
  ℕ, zero, suc, ◌+◌, ◌<◌, ◌≡◌, refl, sym, subst, ap, ◌∙◌, arith, Bool, true, ==_iff, if◌then◌else◌,
  Bool-cases, ◌⊎◌, inl, inr, List, [], ◌∷◌, ◌++◌, Option, none, some,
}
use code_recipes.Common.Eq.{Str, str_eq, str_beq, str_beq_iff}
use code_recipes.Common.Dict.{lookup, lookup-nil, insert, lookup-insert}
use code_recipes.Common.Result.{ok, err}
use code_recipes.TypeVar.Types.{
  type_mismatch, Run, Ty, name, tuple, Tys, none_left, with_first, same_ty, same_tys, count, zip,
  Bindings, sizes, is_type_var, bind_loop, bind_params,
}
use code_recipes.TypeVar.Fits.{
  Fits, same_name, bound, tuples, FitAll, none_fit, first_fits, QueueFits, Extends,
}
use code_recipes.TypeVar.Ends.{queue_size, queue_size-zip, queue_size-params, size_name, size_tuple}

mutual
  unfolding same_ty

  same_ty_refl : (t : Ty) → same_ty t t ≡ true
  same_ty_refl (name s) = (str_beq_iff s s).1 refl
  same_ty_refl (tuple ts) = same_tys_refl ts

  same_tys_refl : (ts : Tys) → same_tys ts ts ≡ true
  same_tys_refl none_left = refl
  same_tys_refl (with_first t ts) = rw (same_ty_refl t) (same_tys_refl ts)

module _ (is_upper : ℕ → Bool) (m : Bindings) where
  FitAll-count : (ps as' : Tys) → FitAll is_upper m ps as' → count ps ≡ count as'
  FitAll-count none_left none_left none_fit = refl
  FitAll-count none_left (with_first a as') h = elim h [ ]
  FitAll-count (with_first p ps) none_left h = elim h [ ]
  FitAll-count (with_first p ps) (with_first a as') (first_fits h hs) =
      ap suc (FitAll-count ps as' hs)

  zip-QueueFits :
      (q : List (Ty × Ty)) (ps as' : Tys)
      → QueueFits is_upper m q
      → FitAll is_upper m ps as'
      → QueueFits is_upper m (q ++ zip ps as')
  zip-QueueFits [] none_left none_left g none_fit = tt
  zip-QueueFits [] none_left (with_first a as') g h = elim h [ ]
  zip-QueueFits [] (with_first p ps) none_left g h = elim h [ ]
  zip-QueueFits [] (with_first p ps) (with_first a as') g (first_fits h hs) =
      (h, zip-QueueFits [] ps as' tt hs)
  zip-QueueFits (x ∷ q) ps as' g h = (g.0, zip-QueueFits q ps as' g.1 h)

  insert-within :
      (n : Bindings) (s : Str) (arg : Ty)
      → Extends is_upper n m
      → lookup s m ≡ some arg
      → Extends is_upper (insert s arg n) m
  insert-within n s arg x e k t f = elim (Bool-cases (str_beq s k)) [
    | inl same ↦
        let g : some arg ≡ some t = rw same at (sym (lookup-insert s k arg n) ∙ f) in
        subst (λ j. lookup j m ≡ some t) ((str_beq_iff s k).0 same) (e ∙ g)
    | inr other ↦ x k t (rw other at (sym (lookup-insert s k arg n) ∙ f))
  ]

  -- The loop returns bindings within `m`.
  abbrev Within : Run Bindings → Type 0
  Within r = (n : Bindings) × (r ≡ ok n) × Extends is_upper n m

  name_fit :
      (s : Str) (arg : Ty)
      → Fits is_upper m (name s) arg
      → (same_ty (name s) arg ≡ true) ⊎ ((is_type_var is_upper s ≡ true) × (lookup s m ≡ some arg))
  name_fit s arg (same_name _) = inl (same_ty_refl (name s))
  name_fit s arg (bound _ _ v e) = inr (v, e)

  at_binding :
      (fuel : ℕ) (n : Bindings) (s : Str) (arg : Ty) (q : List (Ty × Ty)) (o : Option Ty)
      → lookup s n ≡ o
      → Extends is_upper n m
      → lookup s m ≡ some arg
      → Within (bind_loop is_upper fuel n q)
      → Within (bind_loop is_upper fuel (insert s arg n) q)
      → Within (elim o [
        | none ↦ bind_loop is_upper fuel (insert s arg n) q
        | some t ↦ (if same_ty t arg then bind_loop is_upper fuel n q else err type_mismatch)
      ])
  at_binding fuel n s arg q none e x l kept new = new
  at_binding fuel n s arg q (some t) e x l kept new =
      let one : some arg ≡ some t = sym l ∙ x s t e in
      let same : arg ≡ t = ground (arith, one) in
      rw (subst (λ u. same_ty u arg ≡ true) same (same_ty_refl arg)) kept

  bind_loop-Within :
      (fuel : ℕ) (n : Bindings) (q : List (Ty × Ty))
      → Extends is_upper n m
      → QueueFits is_upper m q
      → queue_size q < fuel
      → Within (bind_loop is_upper fuel n q)
  unfolding bind_loop
  bind_loop-Within zero n q x f h = ground arith
  bind_loop-Within (suc fuel) n [] x f h = (n, refl, x)
  bind_loop-Within (suc fuel) n ((tuple ps, name a) ∷ q) x (f, fs) h = elim f [ ]
  bind_loop-Within (suc fuel) n ((tuple ps, tuple as') ∷ q) x (tuples _ _ f, fs) h =
      let same = (==_iff (count ps) (count as')).1 (FitAll-count ps as' f) in
      rw same (
        bind_loop-Within fuel n (q ++ zip ps as') x (zip-QueueFits q ps as' fs f)
          (omega (arith, queue_size-zip q ps as', size_tuple ps)))
  bind_loop-Within (suc fuel) n ((name s, arg) ∷ q) x (f, fs) h =
      let shorter : queue_size q < fuel = omega (arith, size_name s) in
      let kept = bind_loop-Within fuel n q x fs shorter in
      elim (Bool-cases (same_ty (name s) arg)) [
        | inl e ↦ rw e kept
        | inr e ↦ elim (name_fit s arg f) [
          | inl e' ↦ absurd (let clash = sym e ∙ e' in ground arith)
          | inr (v, l) ↦
              rw (e, v)
                (at_binding fuel n s arg q (lookup s n) refl x l kept
                  (bind_loop-Within fuel (insert s arg n) q (insert-within n s arg x l) fs shorter))
        ]
      ]

  -- Arguments that fit the parameters under some bindings make bindings, and these say nothing else.
  pub bind_params-Within :
      (params args : Tys)
      → FitAll is_upper m params args
      → Within (bind_params is_upper params args)
  unfolding bind_params
  bind_params-Within params args f =
      rw ((==_iff (count params) (count args)).1 (FitAll-count params args f)) (
        bind_loop-Within (sizes params + 1) [] (zip params args)
          (λ k t e. absurd (let clash = sym (lookup-nil k) ∙ e in ground arith))
          (zip-QueueFits [] params args tt f) (queue_size-params is_upper params args))
