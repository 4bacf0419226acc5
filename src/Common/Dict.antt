-- ===== src/Common/Dict.antt =====
-- A Python dict, as an association list in insertion order.
use code_recipes.Common.{◌≡◌, refl, Option, none, some, List, [], ◌∷◌, arith, if◌then◌else◌}
use code_recipes.Common.Eq.{Eq}

abbrev pub Dict {ℓ κ} : Type ℓ → Type κ → Type (ℓ ⊔ κ)
Dict K V = List (K × V)

module _ {ℓ κ} {K : Type ℓ} {V : Type κ} ⦃e : Eq K⦄ where
  -- `d.get(k)`
  unfoldable pub lookup : K → Dict K V → Option V
  lookup k [] = none
  lookup k ((j, v) ∷ d) = if e.beq j k then some v else lookup k d

  -- `d[k] = v`
  unfoldable pub insert : K → V → Dict K V → Dict K V
  insert k v [] = (k, v) ∷ []
  insert k v ((j, w) ∷ d) = if e.beq j k then (j, v) ∷ d else (j, w) ∷ insert k v d

  -- `del d[k]`
  unfoldable pub erase : K → Dict K V → Dict K V
  erase k [] = []
  erase k ((j, w) ∷ d) = if e.beq j k then d else (j, w) ∷ erase k d

  pub lookup-nil : (k : K) → ◌≡◌ {A = Option V} (lookup k []) none
  unfolding lookup
  lookup-nil k = refl

  pub lookup-insert :
      (k j : K) (v : V) (d : Dict K V)
      → lookup j (insert k v d) ≡ (if e.beq k j then some v else lookup j d)
  unfolding lookup insert
  lookup-insert k j v [] = refl
  lookup-insert k j v ((i, w) ∷ d) =
      ground (arith, e.beq_iff k j, e.beq_iff i k, e.beq_iff i j, lookup-insert k j v d)

  -- No key stands twice.
  abbrev pub NoDup : Dict K V → Type κ
  NoDup [] = Unit
  NoDup ((k, v) ∷ d) = (lookup k d ≡ none) × NoDup d

  pub insert-NoDup : (k : K) (v : V) (d : Dict K V) → NoDup d → NoDup (insert k v d)
  unfolding lookup insert
  insert-NoDup k v [] h = (refl, tt)
  insert-NoDup k v ((j, w) ∷ d) h =
      ground (arith, e.beq_iff j k, e.beq_iff k j, insert-NoDup k v d h.1, lookup-insert k j v d)

  pub lookup-erase :
      (k j : K) (d : Dict K V)
      → NoDup d
      → lookup j (erase k d) ≡ (if e.beq k j then none else lookup j d)
  unfolding lookup erase
  lookup-erase k j [] h = ground arith
  lookup-erase k j ((i, w) ∷ d) h =
      ground (arith, e.beq_iff k j, e.beq_iff i k, e.beq_iff i j, lookup-erase k j d)

  pub erase-NoDup : (k : K) (d : Dict K V) → NoDup d → NoDup (erase k d)
  unfolding lookup erase
  erase-NoDup k [] h = tt
  erase-NoDup k ((i, w) ∷ d) h = ground (arith, e.beq_iff i k, erase-NoDup k d, lookup-erase k i d)
