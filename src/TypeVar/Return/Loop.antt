-- ===== src/TypeVar/Return/Loop.antt =====
-- The loop makes all replacements, and the answer of `get_return_type` with it.
use code_recipes.Common.{
  ℕ, zero, suc, ◌+◌, ◌<◌, ◌≡◌, refl, sym, ap, ◌∙◌, arith, Bool, true, false, ◌&&◌, if◌then◌else◌,
  Bool-cases, inl, inr, Option-cases, [], ◌∷◌, ◌++◌,
}
use code_recipes.Common.Eq.{str_eq}
use code_recipes.Common.Dict.{lookup}
use code_recipes.Common.Result.{ok, err, ◌>>=◌}
use code_recipes.TypeVar.Types.{
  type_mismatch, Error, Run, Ty, name, tuple, Tys, none_left, with_first, Bindings, size,
  is_type_var, bind_params,
}
use code_recipes.TypeVar.Text.{Func}
use code_recipes.TypeVar.Ends.{queue_size, size_name, size_tuple}
use code_recipes.TypeVar.Return.{
  Replaced, replace_at, children, replace_loop, replaced, with_output, returned, answer,
  output_after, get_return_type,
}
use code_recipes.TypeVar.Return.Places.{get_at, replace_at-same}
use code_recipes.TypeVar.Return.Fills.{
  Queue, Stands, Stands-replace_at, subst_ty, all_bound, queue_bound, fill,
}
use code_recipes.TypeVar.Return.Children.{
  Stands-append, queue_size-children, fill-tuple, queue_bound-children,
}

-- The function after a call that answers the type: an output that is a tuple is changed.
abbrev pub changed : Ty → Ty → Ty
changed (name s) t = name s
changed (tuple ts) t = t

both_parts : (r : Replaced) (t : Ty) (done : Run (Unit {0})) → r.0 ≡ t → r.1 ≡ done → r ≡ (t, done)
both_parts (root, ended) t done e f = cc

answer-err : (r : Replaced) (e : Error) → r.1 ≡ err e → answer r ≡ err e
answer-err (root, ok done) e h = ground arith
answer-err (root, err raised) e h = ground arith

output_after-changed :
    (output t : Ty) → output_after output (tuple (with_first t none_left)) ≡ changed output t
output_after-changed (name s) t = refl
output_after-changed (tuple ts) t = refl

and-true : (b : Bool) → (b && true) ≡ b
and-true true = refl
and-true false = refl

abbrev outcome : Bool → Run (Unit {0})
outcome true = ok tt
outcome false = err type_mismatch

module _ (is_upper : ℕ → Bool) (m : Bindings) where
  -- The loop raises if a variable is not bound, and else makes all replacements.
  abbrev Ends : Ty → Queue → Replaced → Type 0
  Ends root q r =
      (r.1 ≡ outcome (queue_bound is_upper m q))
      × (queue_bound is_upper m q ≡ true → r.0 ≡ fill is_upper m root q)

  replace_loop-Ends :
      (fuel : ℕ) (root : Ty) (q : Queue)
      → Stands root q
      → queue_size q < fuel
      → Ends root q (replace_loop is_upper fuel m root q)
  unfolding replace_loop subst_ty all_bound
  replace_loop-Ends zero root q s h = ground arith
  replace_loop-Ends (suc fuel) root [] s h = (refl, λ e. refl)
  replace_loop-Ends (suc fuel) root ((tuple ts, p) ∷ q) s h =
      let rest =
        replace_loop-Ends fuel root (q ++ children p 0 ts) (Stands-append p root q ts s.0 s.1 s.2)
          (omega (arith, queue_size-children p q 0 ts, size_tuple ts)) in
      let bound = queue_bound-children is_upper m p q 0 ts in
      (
        rest.0 ∙ ap outcome bound,
        λ e. rest.1 (bound ∙ e) ∙ fill-tuple is_upper m p root q ts s.0 s.1,
      )
  replace_loop-Ends (suc fuel) root ((name s, p) ∷ q) st h =
      elim (Bool-cases (is_type_var is_upper s)) [
        | inl v ↦ elim (Option-cases (lookup s m)) [
          | inl e ↦ rw (v, e) (refl, λ f. ground arith)
          | inr (t, e) ↦
              rw (v, e)
                (replace_loop-Ends fuel (replace_at p t root) q
                  (Stands-replace_at p t root q st.1 st.2) (omega (arith, size_name s)))
        ]
        | inr v ↦
            let rest = replace_loop-Ends fuel root q st.2 (omega (arith, size_name s)) in
            let same = ap (λ r. fill is_upper m r q) (sym (replace_at-same p root (name s) st.0)) in
            rw v (rest.0, λ e. rest.1 e ∙ same)
      ]

  start-Stands :
      (output : Ty) → Stands (tuple (with_first output none_left)) ((output, 0 ∷ []) ∷ [])
  unfolding get_at
  start-Stands output = (refl, tt, tt)

  replaced-Ends :
      (output : Ty)
      → Ends
          (tuple (with_first output none_left))
          ((output, 0 ∷ []) ∷ [])
          (replaced is_upper m output)
  unfolding replaced
  replaced-Ends output =
      replace_loop-Ends (size output + 1) (tuple (with_first output none_left))
        ((output, 0 ∷ []) ∷ []) (start-Stands output) (omega arith)

  replaced-root :
      (output : Ty)
      → all_bound is_upper m output ≡ true
      → replaced is_upper m output
        ≡ (tuple (with_first (subst_ty is_upper m output) none_left), ok tt)
  unfolding replace_at
  replaced-root output h =
      let ends = replaced-Ends output in
      let bound = and-true (all_bound is_upper m output) ∙ h in
      both_parts (replaced is_upper m output) _ _ (ends.1 bound) (ends.0 ∙ ap outcome bound)

  replaced-raises :
      (output : Ty)
      → all_bound is_upper m output ≡ false
      → answer (replaced is_upper m output) ≡ err type_mismatch
  replaced-raises output h =
      answer-err (replaced is_upper m output) type_mismatch
        ((replaced-Ends output).0 ∙ ap outcome (and-true (all_bound is_upper m output) ∙ h))

module _ (is_upper : ℕ → Bool) where
  -- The type that a call answers with the bindings `m`.
  abbrev pub expected : Ty → Bindings → Run Ty
  expected output m =
      if all_bound is_upper m output then ok (subst_ty is_upper m output) else err type_mismatch

  pub get_return_type-ok :
      (f : Func) (args : Tys) (m : Bindings)
      → bind_params is_upper f.params args ≡ ok m
      → all_bound is_upper m f.output ≡ true
      → get_return_type is_upper f args ≡ (
        record f { output = changed f.output (subst_ty is_upper m f.output) },
        ok (subst_ty is_upper m f.output),
      )
  unfolding get_return_type
  get_return_type-ok f args m h b =
      ap (returned is_upper f) h
      ∙ ap (with_output is_upper f) (replaced-root is_upper m f.output b)
      ∙ ap (λ o. (record f { output = o }, ok (subst_ty is_upper m f.output)))
          (output_after-changed f.output (subst_ty is_upper m f.output))

  returned-expected :
      (f : Func) (r : Run Bindings) → (returned is_upper f r).1 ≡ (r >>= expected f.output)
  returned-expected f (err e) = refl
  returned-expected f (ok m) = elim (Bool-cases (all_bound is_upper m f.output)) [
    | inl b ↦ rw b (ap answer (replaced-root is_upper m f.output b))
    | inr b ↦ rw b (replaced-raises is_upper m f.output b)
  ]

  pub get_return_type-expected :
      (f : Func) (args : Tys)
      → (get_return_type is_upper f args).1
        ≡ (bind_params is_upper f.params args >>= expected f.output)
  unfolding get_return_type
  get_return_type-expected f args = returned-expected f (bind_params is_upper f.params args)
