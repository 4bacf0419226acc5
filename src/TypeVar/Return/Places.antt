-- ===== src/TypeVar/Return/Places.antt =====
-- Places in a type: what stands there, and what a replacement changes.
use code_recipes.Common.{
  ℕ, zero, suc, ◌≡◌, ◌≢◌, refl, ap, arith, ◌⊎◌, inl, inr, [], ◌∷◌, ◌++◌, Option, none, some,
}
use code_recipes.TypeVar.Types.{Ty, name, tuple, Tys, none_left, with_first}
use code_recipes.TypeVar.Return.{Place, replace_at, replace_in}

unfoldable mutual
  pub get_at : Place → Ty → Option Ty
  get_at [] t = some t
  get_at (i ∷ p) (name s) = none
  get_at (i ∷ p) (tuple ts) = get_in i p ts

  pub get_in : ℕ → Place → Tys → Option Ty
  get_in i p none_left = none
  get_in zero p (with_first t ts) = get_at p t
  get_in (suc i) p (with_first t ts) = get_in i p ts

-- Neither place is at or below the other.
abbrev pub Apart : Place → Place → Type 0
Apart [] q = ⊥
Apart (i ∷ p) [] = ⊥
Apart (i ∷ p) (j ∷ q) = (i ≢ j) ⊎ Apart p q

pub Apart-sym : (p q : Place) → Apart p q → Apart q p
Apart-sym [] q h = absurd h
Apart-sym (i ∷ p) [] h = absurd h
Apart-sym (i ∷ p) (j ∷ q) (inl h) = inl (λ e. ground arith)
Apart-sym (i ∷ p) (j ∷ q) (inr h) = inr (Apart-sym p q h)

pub Apart-below : (p q r : Place) → Apart p q → Apart p (q ++ r)
Apart-below [] q r h = absurd h
Apart-below (i ∷ p) [] r h = absurd h
Apart-below (i ∷ p) (j ∷ q) r (inl h) = inl h
Apart-below (i ∷ p) (j ∷ q) r (inr h) = inr (Apart-below p q r h)

pub Apart-siblings : (p : Place) (i j : ℕ) → i ≢ j → Apart (p ++ i ∷ []) (p ++ j ∷ [])
Apart-siblings [] i j h = inl h
Apart-siblings (k ∷ p) i j h = inr (Apart-siblings p i j h)

mutual
  unfolding get_at replace_at

  pub get_at-replace_at :
      (p q : Place) (v t : Ty) → Apart p q → get_at p (replace_at q v t) ≡ get_at p t
  get_at-replace_at [] q v t h = absurd h
  get_at-replace_at (i ∷ p) [] v t h = absurd h
  get_at-replace_at (i ∷ p) (j ∷ q) v (name s) h = refl
  get_at-replace_at (i ∷ p) (j ∷ q) v (tuple ts) h = get_in-replace_in i j p q v ts h

  get_in-replace_in :
      (i j : ℕ) (p q : Place) (v : Ty) (ts : Tys)
      → (i ≢ j) ⊎ Apart p q
      → get_in i p (replace_in j q v ts) ≡ get_in i p ts
  get_in-replace_in i j p q v none_left h = refl
  get_in-replace_in zero zero p q v (with_first t ts) (inl h) = absurd (h refl)
  get_in-replace_in zero zero p q v (with_first t ts) (inr h) = get_at-replace_at p q v t h
  get_in-replace_in zero (suc j) p q v (with_first t ts) h = refl
  get_in-replace_in (suc i) zero p q v (with_first t ts) h = refl
  get_in-replace_in (suc i) (suc j) p q v (with_first t ts) (inl h) =
      get_in-replace_in i j p q v ts (inl (λ e. h (ap suc e)))
  get_in-replace_in (suc i) (suc j) p q v (with_first t ts) (inr h) =
      get_in-replace_in i j p q v ts (inr h)

mutual
  unfolding replace_at

  -- Replacements apart from each other can be done in either order.
  pub replace_at_comm :
      (p q : Place) (a b t : Ty)
      → Apart p q
      → replace_at p a (replace_at q b t) ≡ replace_at q b (replace_at p a t)
  replace_at_comm [] q a b t h = absurd h
  replace_at_comm (i ∷ p) [] a b t h = absurd h
  replace_at_comm (i ∷ p) (j ∷ q) a b (name s) h = refl
  replace_at_comm (i ∷ p) (j ∷ q) a b (tuple ts) h = ap tuple (replace_in_comm i j p q a b ts h)

  replace_in_comm :
      (i j : ℕ) (p q : Place) (a b : Ty) (ts : Tys)
      → (i ≢ j) ⊎ Apart p q
      → replace_in i p a (replace_in j q b ts) ≡ replace_in j q b (replace_in i p a ts)
  replace_in_comm i j p q a b none_left h = refl
  replace_in_comm zero zero p q a b (with_first t ts) (inl h) = absurd (h refl)
  replace_in_comm zero zero p q a b (with_first t ts) (inr h) =
      ap (λ u. with_first u ts) (replace_at_comm p q a b t h)
  replace_in_comm zero (suc j) p q a b (with_first t ts) h = refl
  replace_in_comm (suc i) zero p q a b (with_first t ts) h = refl
  replace_in_comm (suc i) (suc j) p q a b (with_first t ts) (inl h) =
      ap (with_first t) (replace_in_comm i j p q a b ts (inl (λ e. h (ap suc e))))
  replace_in_comm (suc i) (suc j) p q a b (with_first t ts) (inr h) =
      ap (with_first t) (replace_in_comm i j p q a b ts (inr h))

mutual
  unfolding get_at

  pub get_at-child :
      (p : Place) (i : ℕ) (r : Ty) (us : Tys)
      → get_at p r ≡ some (tuple us)
      → get_at (p ++ i ∷ []) r ≡ get_in i [] us
  get_at-child [] i (name s) us h = ground arith
  get_at-child [] i (tuple ts) us h = ground arith
  get_at-child (j ∷ p) i (name s) us h = ground arith
  get_at-child (j ∷ p) i (tuple ts) us h = get_in-child j p i ts us h

  get_in-child :
      (j : ℕ) (p : Place) (i : ℕ) (ts us : Tys)
      → get_in j p ts ≡ some (tuple us)
      → get_in j (p ++ i ∷ []) ts ≡ get_in i [] us
  get_in-child j p i none_left us h = ground arith
  get_in-child zero p i (with_first t ts) us h = get_at-child p i t us h
  get_in-child (suc j) p i (with_first t ts) us h = get_in-child j p i ts us h

mutual
  unfolding get_at replace_at

  -- A replacement below a tuple replaces the tuple.
  pub replace_at-child :
      (p : Place) (i : ℕ) (v r : Ty) (us : Tys)
      → get_at p r ≡ some (tuple us)
      → replace_at (p ++ i ∷ []) v r ≡ replace_at p (tuple (replace_in i [] v us)) r
  replace_at-child [] i v (name s) us h = ground arith
  replace_at-child [] i v (tuple ts) us h = ground arith
  replace_at-child (j ∷ p) i v (name s) us h = refl
  replace_at-child (j ∷ p) i v (tuple ts) us h = ap tuple (replace_in-child j p i v ts us h)

  replace_in-child :
      (j : ℕ) (p : Place) (i : ℕ) (v : Ty) (ts us : Tys)
      → get_in j p ts ≡ some (tuple us)
      → replace_in j (p ++ i ∷ []) v ts ≡ replace_in j p (tuple (replace_in i [] v us)) ts
  replace_in-child j p i v none_left us h = refl
  replace_in-child zero p i v (with_first t ts) us h =
      ap (λ u. with_first u ts) (replace_at-child p i v t us h)
  replace_in-child (suc j) p i v (with_first t ts) us h =
      ap (with_first t) (replace_in-child j p i v ts us h)

mutual
  unfolding get_at replace_at

  pub get_at-same :
      (p : Place) (v r u : Ty) → get_at p r ≡ some u → get_at p (replace_at p v r) ≡ some v
  get_at-same [] v r u h = refl
  get_at-same (i ∷ p) v (name s) u h = ground arith
  get_at-same (i ∷ p) v (tuple ts) u h = get_in-same i p v ts u h

  get_in-same :
      (i : ℕ) (p : Place) (v : Ty) (ts : Tys) (u : Ty)
      → get_in i p ts ≡ some u
      → get_in i p (replace_in i p v ts) ≡ some v
  get_in-same i p v none_left u h = ground arith
  get_in-same zero p v (with_first t ts) u h = get_at-same p v t u h
  get_in-same (suc i) p v (with_first t ts) u h = get_in-same i p v ts u h

mutual
  unfolding get_at replace_at

  pub replace_at-same : (p : Place) (r u : Ty) → get_at p r ≡ some u → replace_at p u r ≡ r
  replace_at-same [] r u h = ground arith
  replace_at-same (i ∷ p) (name s) u h = refl
  replace_at-same (i ∷ p) (tuple ts) u h = ap tuple (replace_in-same i p ts u h)

  replace_in-same :
      (i : ℕ) (p : Place) (ts : Tys) (u : Ty) → get_in i p ts ≡ some u → replace_in i p u ts ≡ ts
  replace_in-same i p none_left u h = refl
  replace_in-same zero p (with_first t ts) u h = ap (λ x. with_first x ts) (replace_at-same p t u h)
  replace_in-same (suc i) p (with_first t ts) u h = ap (with_first t) (replace_in-same i p ts u h)

mutual
  unfolding replace_at

  pub replace_at-twice :
      (p : Place) (a b r : Ty) → replace_at p a (replace_at p b r) ≡ replace_at p a r
  replace_at-twice [] a b r = refl
  replace_at-twice (i ∷ p) a b (name s) = refl
  replace_at-twice (i ∷ p) a b (tuple ts) = ap tuple (replace_in-twice i p a b ts)

  replace_in-twice :
      (i : ℕ) (p : Place) (a b : Ty) (ts : Tys)
      → replace_in i p a (replace_in i p b ts) ≡ replace_in i p a ts
  replace_in-twice i p a b none_left = refl
  replace_in-twice zero p a b (with_first t ts) =
      ap (λ x. with_first x ts) (replace_at-twice p a b t)
  replace_in-twice (suc i) p a b (with_first t ts) = ap (with_first t) (replace_in-twice i p a b ts)
