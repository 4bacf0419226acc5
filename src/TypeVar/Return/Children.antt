-- ===== src/TypeVar/Return/Children.antt =====
-- A tuple in the queue gives way to its children.
use code_recipes.Common.{
  ℕ, zero, suc, ◌+◌, ◌<◌, ◌≡◌, refl, sym, ap, ◌∙◌, arith, Bool, ◌&&◌, [], ◌∷◌, ◌++◌, some,
}
use code_recipes.TypeVar.Types.{Ty, tuple, Tys, none_left, with_first, count, Bindings, size, sizes}
use code_recipes.TypeVar.Ends.{queue_size, sizes_first}
use code_recipes.TypeVar.Return.{Place, replace_at, replace_in, children}
use code_recipes.TypeVar.Return.Places.{
  get_at, get_in, Apart, Apart-sym, Apart-below, Apart-siblings, get_at-child, replace_at-child,
  get_at-same, replace_at-same, replace_at-twice,
}
use code_recipes.TypeVar.Return.Fills.{
  Queue, AllApart, Stands, subst_ty, subst_tys, all_bound, each_bound, queue_bound, fill,
  fill-append, get_at-fill, fill-replace_at,
}

AllApart-children : (o p : Place) (k : ℕ) (ts : Tys) → Apart o p → AllApart o (children p k ts)
unfolding children
AllApart-children o p k none_left h = tt
AllApart-children o p k (with_first t ts) h =
    (Apart-below o p (k ∷ []) h, AllApart-children o p (suc k) ts h)

AllApart-siblings :
    (p : Place) (j k : ℕ) (ts : Tys) → j < k → AllApart (p ++ j ∷ []) (children p k ts)
unfolding children
AllApart-siblings p j k none_left h = tt
AllApart-siblings p j k (with_first t ts) h =
    (Apart-siblings p j k (λ e. ground arith), AllApart-siblings p j (suc k) ts (omega arith))

AllApart-append :
    (o p : Place) (q : Queue) (k : ℕ) (ts : Tys)
    → Apart o p
    → AllApart o q
    → AllApart o (q ++ children p k ts)
AllApart-append o p [] k ts h a = AllApart-children o p k ts h
AllApart-append o p (x ∷ q) k ts h a = (a.0, AllApart-append o p q k ts h a.1)

Stands-children :
    (p : Place) (root : Ty) (us : Tys) (k : ℕ) (ts : Tys)
    → get_at p root ≡ some (tuple us)
    → ((i : ℕ) → get_in (i + k) [] us ≡ get_in i [] ts)
    → Stands root (children p k ts)
unfolding children get_at
Stands-children p root us k none_left h g = tt
Stands-children p root us k (with_first t ts) h g = (
  (let e : k ≡ 0 + k = omega arith in
      get_at-child p k root us h ∙ ap (λ n. get_in n [] us) e ∙ g zero),
  AllApart-siblings p k (suc k) ts (omega arith),
  Stands-children p root us (suc k) ts h (λ i. ap (λ n. get_in n [] us) (omega arith) ∙ g (suc i)),
)

pub Stands-append :
    (p : Place) (root : Ty) (q : Queue) (ts : Tys)
    → get_at p root ≡ some (tuple ts)
    → AllApart p q
    → Stands root q
    → Stands root (q ++ children p 0 ts)
Stands-append p root [] ts h a s =
    Stands-children p root ts 0 ts h (λ i. ap (λ n. get_in n [] ts) (omega arith))
Stands-append p root ((t, o) ∷ q) ts h a s =
    (s.0, AllApart-append o p q 0 ts (Apart-sym p o a.0) s.1, Stands-append p root q ts h a.1 s.2)

pub queue_size-children :
    (p : Place) (q : Queue) (k : ℕ) (ts : Tys)
    → queue_size (q ++ children p k ts) ≡ queue_size q + sizes ts
unfolding children size
queue_size-children p [] k none_left = refl
queue_size-children p [] k (with_first t ts) =
    omega (arith, queue_size-children p [] (suc k) ts, sizes_first t ts)
queue_size-children p ((t, o) ∷ q) k ts = omega (arith, queue_size-children p q k ts)

abbrev app : Tys → Tys → Tys
app none_left us = us
app (with_first t ts) us = with_first t (app ts us)

abbrev snoc : Tys → Ty → Tys
snoc ts t = app ts (with_first t none_left)

app-snoc : (pre : Tys) (t : Ty) (ts : Tys) → app (snoc pre t) ts ≡ app pre (with_first t ts)
app-snoc none_left t ts = refl
app-snoc (with_first u pre) t ts = ap (with_first u) (app-snoc pre t ts)

count-snoc : (pre : Tys) (t : Ty) → count (snoc pre t) ≡ suc (count pre)
count-snoc none_left t = refl
count-snoc (with_first u pre) t = ap suc (count-snoc pre t)

replace_in-app :
    (pre : Tys) (v t : Ty) (ts : Tys)
    → replace_in (count pre) [] v (app pre (with_first t ts)) ≡ app (snoc pre v) ts
unfolding replace_at
replace_in-app none_left v t ts = refl
replace_in-app (with_first u pre) v t ts = ap (with_first u) (replace_in-app pre v t ts)

module _ (is_upper : ℕ → Bool) (m : Bindings) where
  fill-children :
      (p : Place) (r : Ty) (pre ts : Tys)
      → get_at p r ≡ some (tuple (app pre ts))
      → fill is_upper m r (children p (count pre) ts)
        ≡ replace_at p (tuple (app pre (subst_tys is_upper m ts))) r
  unfolding children subst_ty
  fill-children p r pre none_left h = sym (replace_at-same p r (tuple (app pre none_left)) h)
  fill-children p r pre (with_first t ts) h =
      let v = subst_ty is_upper m t in
      let r' = replace_at p (tuple (app (snoc pre v) ts)) r in
      let one : replace_at (p ++ count pre ∷ []) v r ≡ r' =
        replace_at-child p (count pre) v r (app pre (with_first t ts)) h
        ∙ ap (λ us. replace_at p (tuple us) r) (replace_in-app pre v t ts) in
      ap (λ x. fill is_upper m x (children p (suc (count pre)) ts)) one
      ∙ ap (λ k. fill is_upper m r' (children p k ts)) (sym (count-snoc pre v))
      ∙ fill-children p r' (snoc pre v) ts (get_at-same p _ r _ h)
      ∙ replace_at-twice p _ _ r
      ∙ ap (λ us. replace_at p (tuple us) r) (app-snoc pre v (subst_tys is_upper m ts))

  pub fill-tuple :
      (p : Place) (root : Ty) (q : Queue) (ts : Tys)
      → get_at p root ≡ some (tuple ts)
      → AllApart p q
      → fill is_upper m root (q ++ children p 0 ts)
        ≡ fill is_upper m (replace_at p (subst_ty is_upper m (tuple ts)) root) q
  unfolding subst_ty
  fill-tuple p root q ts h a =
      fill-append is_upper m root q (children p 0 ts)
      ∙ fill-children p (fill is_upper m root q) none_left ts
          (get_at-fill is_upper m p root q a ∙ h)
      ∙ sym (fill-replace_at is_upper m p (tuple (subst_tys is_upper m ts)) root q a)

  pub queue_bound-children :
      (p : Place) (q : Queue) (k : ℕ) (ts : Tys)
      → queue_bound is_upper m (q ++ children p k ts)
        ≡ (each_bound is_upper m ts && queue_bound is_upper m q)
  unfolding children all_bound
  queue_bound-children p [] k none_left = refl
  queue_bound-children p [] k (with_first t ts) =
      ground (arith, queue_bound-children p [] (suc k) ts)
  queue_bound-children p ((t, o) ∷ q) k ts = ground (arith, queue_bound-children p q k ts)
