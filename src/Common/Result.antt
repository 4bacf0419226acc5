-- ===== src/Common/Result.antt =====
-- A call that may raise an exception.
use code_recipes.Common.{◌≡◌, refl, Bool, true, false, Option, none, some}

pub data Result {ℓ κ} (E : Type κ) (A : Type ℓ) : Type (ℓ ⊔ κ) where
  ok : A → Result E A
  err : E → Result E A

module _ {κ} {E : Type κ} where
  abbrev pub or_raise {ℓ} : {A : Type ℓ} → Option A → E → Result E A
  or_raise none e = err e
  or_raise (some a) e = ok a

  -- `if not b: raise e`
  abbrev pub guard : Bool → E → Result E (Unit {0})
  guard false e = err e
  guard true e = ok tt

  infixl 5 ◌>>=◌ ◌>>◌
  abbrev pub ◌>>=◌ {ℓ ℓ'} : {A : Type ℓ} {B : Type ℓ'} → Result E A → (A → Result E B) → Result E B
  err raised >>= f = err raised
  ok value >>= f = f value

  abbrev pub ◌>>◌ {ℓ} : {B : Type ℓ} → Result E (Unit {0}) → Result E B → Result E B
  first >> second = first >>= λ done. second

  -- What a successful bind went through.
  pub >>=-eq-ok {ℓ ℓ'} :
      {A : Type ℓ} {B : Type ℓ'} (call : Result E A) (next : A → Result E B) {last : B}
      → (call >>= next) ≡ ok last
      → (mid : A) × (call ≡ ok mid) × (next mid ≡ ok last)
  >>=-eq-ok (err raised) next h = cc
  >>=-eq-ok (ok value) next h = (value, refl, h)

  pub or_raise-eq-ok {ℓ} :
      {A : Type ℓ} (o : Option A) (e : E) {a : A} → or_raise o e ≡ ok a → o ≡ some a
  or_raise-eq-ok none e h = cc
  or_raise-eq-ok (some a) e h = cc
