-- ===== src/Common/Bisect.antt =====
-- `bisect.bisect_right` of the standard library. The comparison of the sought value with an entry,
-- `x < a[i]`, is the argument `above`.
use native.Mathlib.Decide.{ℕ_discrete, dec_lt}
use code_recipes.Common.{
  ℕ, zero, suc, ◌+◌, ◌-◌, ◌/◌, ◌≤◌, ◌<◌, ◌≡◌, refl, sym, Bool, true, false, Option, none, some,
  List, [], ◌∷◌, ◌++◌, arith, ltb, if◌then◌else◌, length, get_elem?, map, length-map, Bool-cases,
  inl, inr,
}

module _ {ℓ} {A : Type ℓ} where
  -- the test of an entry that was read
  abbrev pub holds_at : (A → Bool) → Option A → Bool
  holds_at above none = false
  holds_at above (some a) = above a

  -- `while lo < hi: mid = (lo + hi) // 2; ...`. No round reads outside the list.
  bisect_loop : ℕ → (A → Bool) → List A → ℕ → ℕ → ℕ
  bisect_loop zero above xs lo hi = lo
  bisect_loop (suc fuel) above xs lo hi =
      let mid = (lo + hi) / 2 in
      let left = bisect_loop fuel above xs lo mid in
      let right = bisect_loop fuel above xs (mid + 1) hi in
      if ltb lo hi then (if holds_at above (get_elem? xs mid) then left else right) else lo

  unfoldable pub bisect_right : (A → Bool) → List A → ℕ
  unfolding bisect_loop
  bisect_right above xs = bisect_loop (length xs) above xs 0 (length xs)

  -- The entries below `n` are not above, and those from `n` on are.
  pub record Splits (above : A → Bool) (xs : List A) (n : ℕ) : Type ℓ where
    pub bounded : n ≤ length xs
    pub below : (i : ℕ) (a : A) → i < n → get_elem? xs i ≡ some a → above a ≡ false
    pub beyond : (i : ℕ) (a : A) → n ≤ i → get_elem? xs i ≡ some a → above a ≡ true

  -- Once an entry is above, so are all that follow it.
  abbrev pub IsMonotone : (A → Bool) → List A → Type ℓ
  IsMonotone above xs =
      (i j : ℕ) (a b : A)
      → i ≤ j
      → get_elem? xs i ≡ some a
      → get_elem? xs j ≡ some b
      → above a ≡ true
      → above b ≡ true

  pub get_elem?-some : (xs : List A) (i : ℕ) → i < length xs → (a : A) × (get_elem? xs i ≡ some a)
  get_elem?-some [] i h = absurd (omega arith)
  get_elem?-some (x ∷ xs) zero h = (x, refl)
  get_elem?-some (x ∷ xs) (suc i) h = get_elem?-some xs i (omega arith)

  pub get_elem?-beyond : (xs : List A) (i : ℕ) {a : A} → length xs ≤ i → get_elem? xs i ≡ some a → ⊥
  get_elem?-beyond [] i h e = cc
  get_elem?-beyond (x ∷ xs) zero h e = omega arith
  get_elem?-beyond (x ∷ xs) (suc i) h e = get_elem?-beyond xs i (omega arith) e

  module _ (above : A → Bool) (xs : List A) (mono : IsMonotone above xs) where
    abbrev Low : ℕ → Type ℓ
    Low n = (i : ℕ) (a : A) → i < n → get_elem? xs i ≡ some a → above a ≡ false

    abbrev High : ℕ → Type ℓ
    High n = (i : ℕ) (a : A) → n ≤ i → get_elem? xs i ≡ some a → above a ≡ true

    -- No entry up to one that is not above is above.
    pub low_before :
        (k : ℕ) (m : A)
        → get_elem? xs k ≡ some m
        → above m ≡ false
        → (i : ℕ) (a : A) → i < k + 1
        → get_elem? xs i ≡ some a
        → above a ≡ false
    low_before k m at e i a p q = elim (Bool-cases (above a)) [
      | inl up ↦ absurd (cc (mono i k a m (omega arith) q at up))
      | inr down ↦ down
    ]

    bisect_loop-Splits :
        (fuel lo hi : ℕ)
        → hi - lo ≤ fuel
        → lo ≤ hi
        → hi ≤ length xs
        → Low lo
        → High hi
        → Splits above xs (bisect_loop fuel above xs lo hi)
    unfolding bisect_loop
    bisect_loop-Splits zero lo hi f le bound low high = record {
      bounded = omega arith;
      below = low;
      beyond = λ i a p q. high i a (omega arith) q;
    }
    bisect_loop-Splits (suc fuel) lo hi f le bound low high = elim (Bool-cases (ltb lo hi)) [
      | inl more ↦
          let (m, at_mid) = get_elem?-some xs ((lo + hi) / 2) (ground arith) in
          rw (more, at_mid)
            (elim (Bool-cases (above m)) [
              | inl yes_above ↦ rw yes_above (
                  bisect_loop-Splits fuel lo ((lo + hi) / 2) (ground arith) (ground arith)
                    (ground arith) low (λ i a p q. mono _ i m a p at_mid q yes_above))
              | inr not_above ↦ rw not_above (
                  bisect_loop-Splits fuel ((lo + hi) / 2 + 1) hi (ground arith) (ground arith) bound
                    (low_before _ m at_mid not_above) high)
            ])
      | inr done ↦ rw done (record {
        bounded = ground arith;
        below = low;
        beyond = λ i a p q. high i a (ground arith) q;
      })
    ]

  -- On a list where the entries above come last, the result is the place where they begin.
  pub bisect_right-Splits :
      (above : A → Bool) (xs : List A)
      → IsMonotone above xs
      → Splits above xs (bisect_right above xs)
  unfolding bisect_right
  bisect_right-Splits above xs mono =
      bisect_loop-Splits above xs mono (length xs) 0 (length xs) (omega arith) (omega arith)
        (omega arith) (λ i a p q. absurd (omega arith))
        (λ i a p q. absurd (get_elem?-beyond xs i p q))

  abbrev pub later : Option A → Option A → Option A
  later none o = o
  later (some a) o = some a

  -- The last entry that is not above.
  abbrev pub last_kept : (A → Bool) → List A → Option A
  last_kept above [] = none
  last_kept above (x ∷ xs) = later (last_kept above xs) (if above x then none else some x)

  pub last_kept-append :
      (above : A → Bool) (xs : List A) (x : A)
      → last_kept above (xs ++ x ∷ []) ≡ (if above x then last_kept above xs else some x)
  last_kept-append above [] x = ground arith
  last_kept-append above (y ∷ xs) x = ground (arith, last_kept-append above xs x)

  -- `xs[n - 1]` where `n > 0`
  abbrev pub entry_before : List A → ℕ → Option A
  entry_before xs zero = none
  entry_before xs (suc n) = get_elem? xs n

  pub Splits-tail :
      {above : A → Bool} (x : A) (xs : List A) (n : ℕ)
      → Splits above (x ∷ xs) (suc n)
      → Splits above xs n
  Splits-tail x xs n s = record {
    bounded = omega (arith, s.bounded);
    below = λ i a p q. s.below (suc i) a (omega arith) q;
    beyond = λ i a p q. s.beyond (suc i) a (omega arith) q;
  }

  none_kept :
      (above : A → Bool) (xs : List A)
      → ((i : ℕ) (a : A) → get_elem? xs i ≡ some a → above a ≡ true)
      → last_kept above xs ≡ none
  none_kept above [] h = refl
  none_kept above (x ∷ xs) h = rw (none_kept above xs (λ i a q. h (suc i) a q), h 0 x refl)

  -- The entry before the split is the last one that is not above.
  pub entry_before-Splits :
      (above : A → Bool) (xs : List A) (n : ℕ)
      → Splits above xs n
      → entry_before xs n ≡ last_kept above xs
  entry_before-Splits above xs zero s =
      sym (none_kept above xs (λ i a q. s.beyond i a (omega arith) q))
  entry_before-Splits above [] (suc n) s = absurd (omega (arith, s.bounded))
  entry_before-Splits above (x ∷ xs) (suc zero) s =
      let rest = entry_before-Splits above xs zero (Splits-tail x xs zero s) in
      rw (← rest, s.below 0 x (omega arith) refl)
  entry_before-Splits above (x ∷ xs) (suc (suc n)) s =
      let rest = entry_before-Splits above xs (suc n) (Splits-tail x xs (suc n) s) in
      let (a, at) = get_elem?-some xs n (omega (arith, s.bounded)) in rw (← rest, at)

  pub entry_before-bisect :
      (above : A → Bool) (xs : List A)
      → IsMonotone above xs
      → entry_before xs (bisect_right above xs) ≡ last_kept above xs
  entry_before-bisect above xs mono =
      entry_before-Splits above xs _ (bisect_right-Splits above xs mono)

  -- There is one such place.
  pub Splits-unique :
      (above : A → Bool) (xs : List A) (m n : ℕ) → Splits above xs m → Splits above xs n → m ≡ n
  Splits-unique above xs m n s t = elim (ℕ_discrete m n) [
    | yes e ↦ e
    | no ne ↦ absurd (elim (dec_lt m n) [
      | yes p ↦ not_before m n p s t
      | no p ↦ not_before n m (omega arith) t s
    ])
  ]
    where
      not_before : (i j : ℕ) → i < j → Splits above xs i → Splits above xs j → ⊥
      not_before i j p s t =
          let (a, at) = get_elem?-some xs i (omega (arith, t.bounded)) in
          cc (s.beyond i a (omega arith) at, t.below i a p at)

module _ {ℓ κ} {A : Type ℓ} {B : Type κ} where
  get_elem?-map :
      (f : A → B) (above : B → Bool) (xs : List A) (i : ℕ)
      → holds_at above (get_elem? (map f xs) i) ≡ holds_at (λ a. above (f a)) (get_elem? xs i)
  get_elem?-map f above [] i = refl
  get_elem?-map f above (x ∷ xs) zero = refl
  get_elem?-map f above (x ∷ xs) (suc i) = get_elem?-map f above xs i

  bisect_loop-map :
      (f : A → B) (above : B → Bool) (xs : List A) (fuel lo hi : ℕ)
      → bisect_loop fuel above (map f xs) lo hi ≡ bisect_loop fuel (λ a. above (f a)) xs lo hi
  unfolding bisect_loop
  bisect_loop-map f above xs zero lo hi = refl
  bisect_loop-map f above xs (suc fuel) lo hi = rw (
    get_elem?-map f above xs ((lo + hi) / 2),
    bisect_loop-map f above xs fuel lo ((lo + hi) / 2),
    bisect_loop-map f above xs fuel ((lo + hi) / 2 + 1) hi,
  )

  -- To search in mapped entries is to search with a mapped test.
  pub bisect_right-map :
      (f : A → B) (above : B → Bool) (xs : List A)
      → bisect_right above (map f xs) ≡ bisect_right (λ a. above (f a)) xs
  unfolding bisect_right
  bisect_right-map f above xs = rw length-map (bisect_loop-map f above xs (length xs) 0 (length xs))
