-- ===== src/Bedrock/Scan/Tally.antt =====
-- How often each name stands in a list, in the order of the first places: what `bump` counts.
use code_recipes.Common.{
  ℕ, suc, ◌+◌, ◌≡◌, refl, sym, ap, ◌∙◌, arith, Bool, true, false, not, ◌||◌, if◌then◌else◌,
  Bool-cases, inl, inr, List, [], ◌∷◌, ◌++◌, append-nil, append_assoc, map, filter, length,
  length-map,
}
use code_recipes.Common.Eq.{str_beq, str_beq_iff}
use code_recipes.Bedrock.Scan.{bump, total}

-- What the code relies on of Python's `==` on the keys of a dict.
pub record IsEquality {K : Type 0} (same : K → K → Bool) : Type 0 where
  pub reflexive : (a : K) → same a a ≡ true
  pub symmetric : (a b : K) → same a b ≡ true → same b a ≡ true
  pub transitive : (a b c : K) → same a b ≡ true → same b c ≡ true → same a c ≡ true

pub str_beq-IsEquality : IsEquality str_beq
str_beq-IsEquality = record {
  reflexive = λ a. (str_beq_iff a a).1 refl;
  symmetric = λ a b h. (str_beq_iff b a).1 (sym ((str_beq_iff a b).0 h));
  transitive = λ a b c h g. (str_beq_iff a c).1 ((str_beq_iff a b).0 h ∙ (str_beq_iff b c).0 g);
}

module _ {K : Type 0} (same : K → K → Bool) where
  -- The names that are the same as `k`
  abbrev pub occurrences : K → List K → ℕ
  occurrences k [] = 0
  occurrences k (x ∷ xs) = if same k x then suc (occurrences k xs) else occurrences k xs

  -- Each name once, at its first place.
  abbrev pub firsts : List K → List K
  firsts [] = []
  firsts (x ∷ xs) = x ∷ filter (λ y. not (same x y)) (firsts xs)

  abbrev counted : List K → List K → List (K × ℕ)
  counted ks xs = map (λ k. (k, occurrences k xs)) ks

  -- Each name with the number of its places.
  abbrev pub tally : List K → List (K × ℕ)
  tally xs = counted (firsts xs) xs

  -- `counts[k] += 1` for each name
  abbrev pub bump_all : List K → List (K × ℕ) → List (K × ℕ)
  bump_all [] d = d
  bump_all (x ∷ xs) d = bump_all xs (bump same x d)

  abbrev among : K → List K → Bool
  among k [] = false
  among k (x ∷ xs) = same x k || among k xs

  abbrev Unlike : K → List K → Type 0
  Unlike k [] = Unit
  Unlike k (x ∷ xs) = (same k x ≡ false) × Unlike k xs

  abbrev Different : List K → Type 0
  Different [] = Unit
  Different (x ∷ xs) = Unlike x xs × Different xs

  abbrev if_new : {B : Type 0} → Bool → B → List B
  if_new true b = []
  if_new false b = b ∷ []

  occurrences-snoc :
      (j : K) (xs : List K) (k : K)
      → occurrences j (xs ++ k ∷ [])
        ≡ (if same j k then suc (occurrences j xs) else occurrences j xs)
  occurrences-snoc j [] k = refl
  occurrences-snoc j (x ∷ xs) k = ground (arith, occurrences-snoc j xs k)

  counted-append : (ks ls xs : List K) → counted (ks ++ ls) xs ≡ counted ks xs ++ counted ls xs
  counted-append [] ls xs = refl
  counted-append (k ∷ ks) ls xs = ap (λ d. (k, occurrences k xs) ∷ d) (counted-append ks ls xs)

  filter-append :
      (test : K → Bool) (ks ls : List K) → filter test (ks ++ ls) ≡ filter test ks ++ filter test ls
  filter-append test [] ls = refl
  filter-append test (k ∷ ks) ls = ground (arith, filter-append test ks ls)

  Unlike-filter : (x : K) (ks : List K) → Unlike x (filter (λ y. not (same x y)) ks)
  Unlike-filter x [] = tt
  Unlike-filter x (k ∷ ks) = elim (Bool-cases (same x k)) [
    | inl e ↦ rw e (Unlike-filter x ks)
    | inr e ↦ rw e (e, Unlike-filter x ks)
  ]

  Unlike-kept : (x : K) (test : K → Bool) (ks : List K) → Unlike x ks → Unlike x (filter test ks)
  Unlike-kept x test [] u = tt
  Unlike-kept x test (k ∷ ks) u = ground (arith, Unlike-kept x test ks u.1)

  Different-filter : (test : K → Bool) (ks : List K) → Different ks → Different (filter test ks)
  Different-filter test [] d = tt
  Different-filter test (k ∷ ks) d =
      ground (arith, Different-filter test ks d.1, Unlike-kept k test ks d.0)

  firsts-Different : (xs : List K) → Different (firsts xs)
  firsts-Different [] = tt
  firsts-Different (x ∷ xs) = (
    Unlike-filter x (firsts xs),
    Different-filter (λ y. not (same x y)) (firsts xs) (firsts-Different xs),
  )

  counted-snoc :
      (ks xs : List K) (k : K) → among k ks ≡ false → counted ks (xs ++ k ∷ []) ≡ counted ks xs
  counted-snoc [] xs k a = refl
  counted-snoc (x ∷ ks) xs k a = ground (arith, counted-snoc ks xs k, occurrences-snoc x xs k)

  module _ (h : IsEquality same) where
    unlike_via : (a b k : K) → same a b ≡ false → same a k ≡ true → same b k ≡ false
    unlike_via a b k n e = elim (Bool-cases (same b k)) [
      | inl f ↦ absurd (let g = sym n ∙ h.transitive a k b e (h.symmetric b k f) in ground arith)
      | inr f ↦ f
    ]

    like_dropped : (x y k : K) → same x k ≡ false → same x y ≡ true → same y k ≡ false
    like_dropped x y k n e = elim (Bool-cases (same y k)) [
      | inl f ↦ absurd (let g = sym n ∙ h.transitive x y k e f in ground arith)
      | inr f ↦ f
    ]

    Unlike-among : (j k : K) (ks : List K) → Unlike j ks → same j k ≡ true → among k ks ≡ false
    Unlike-among j k [] u e = refl
    Unlike-among j k (x ∷ ks) u e = rw (unlike_via j x k u.0 e) (Unlike-among j k ks u.1 e)

    bump-counted :
        (ks xs : List K) (k : K)
        → Different ks
        → bump same k (counted ks xs) ≡ counted ks (xs ++ k ∷ []) ++ if_new (among k ks) (k, 1)
    bump-counted [] xs k d = refl
    bump-counted (x ∷ ks) xs k d = elim (Bool-cases (same x k)) [
      | inl e ↦
          let more : occurrences x xs + 1 ≡ occurrences x (xs ++ k ∷ []) =
            omega (arith, rw e at (occurrences-snoc x xs k)) in
          rw (e, more, counted-snoc ks xs k (Unlike-among x k ks d.0 e)) (sym (append-nil _))
      | inr e ↦
          let still : occurrences x (xs ++ k ∷ []) ≡ occurrences x xs =
            occurrences-snoc x xs k ∙ rw e refl in
          rw (e, still) (ap (λ c. (x, occurrences x xs) ∷ c) (bump-counted ks xs k d.1))
    ]

    among-filter :
        (x k : K) (ks : List K)
        → same x k ≡ false
        → among k (filter (λ y. not (same x y)) ks) ≡ among k ks
    among-filter x k [] n = refl
    among-filter x k (y ∷ ks) n = elim (Bool-cases (same x y)) [
      | inl e ↦ rw (e, like_dropped x y k n e) (among-filter x k ks n)
      | inr e ↦ rw e (ap (λ b. same y k || b) (among-filter x k ks n))
    ]

    new_kept :
        (x k : K) (ks : List K)
        → filter (λ y. not (same x y)) (if_new (among k ks) k)
          ≡ if_new (same x k || among k (filter (λ y. not (same x y)) ks)) k
    new_kept x k ks = elim (Bool-cases (same x k)) [
      | inl e ↦ elim (Bool-cases (among k ks)) [
        | inl f ↦ rw (e, f) refl
        | inr f ↦ rw (e, f) (rw e refl)
      ]
      | inr e ↦
          rw (e, among-filter x k ks e)
            (elim (Bool-cases (among k ks)) [ inl f ↦ rw f refl | inr f ↦ rw (f, e) refl ])
    ]

    firsts-snoc :
        (xs : List K) (k : K) → firsts (xs ++ k ∷ []) ≡ firsts xs ++ if_new (among k (firsts xs)) k
    firsts-snoc [] k = refl
    firsts-snoc (x ∷ xs) k =
        ap (λ l. x ∷ filter (λ y. not (same x y)) l) (firsts-snoc xs k)
        ∙ ap (λ l. x ∷ l)
            (filter-append (λ y. not (same x y)) (firsts xs) (if_new (among k (firsts xs)) k)
              ∙ ap (λ l. filter (λ y. not (same x y)) (firsts xs) ++ l) (new_kept x k (firsts xs)))

    occurrences-fresh : (xs : List K) (k : K) → among k (firsts xs) ≡ false → occurrences k xs ≡ 0
    occurrences-fresh [] k a = refl
    occurrences-fresh (x ∷ xs) k a = elim (Bool-cases (same x k)) [
      | inl e ↦ absurd (let a' = rw e at a in ground arith)
      | inr e ↦
          let unlike : same k x ≡ false = elim (Bool-cases (same k x)) [
            | inl f ↦ absurd (let g = sym e ∙ h.symmetric k x f in ground arith)
            | inr f ↦ f
          ] in
          rw unlike (occurrences-fresh xs k (sym (among-filter x k (firsts xs) e) ∙ (rw e at a)))
    ]

    new_counted :
        (xs : List K) (k : K) (b : Bool)
        → among k (firsts xs) ≡ b
        → if_new b (k, 1) ≡ counted (if_new b k) (xs ++ k ∷ [])
    new_counted xs k true e = refl
    new_counted xs k false e =
        let one : occurrences k (xs ++ k ∷ []) ≡ 1 =
          occurrences-snoc k xs k ∙ (rw (h.reflexive k, occurrences-fresh xs k e) refl) in
        rw one refl

    tally-snoc : (xs : List K) (k : K) → bump same k (tally xs) ≡ tally (xs ++ k ∷ [])
    tally-snoc xs k =
        bump-counted (firsts xs) xs k (firsts-Different xs)
        ∙ ap (λ d. counted (firsts xs) (xs ++ k ∷ []) ++ d)
            (new_counted xs k (among k (firsts xs)) refl)
        ∙ sym (counted-append (firsts xs) (if_new (among k (firsts xs)) k) (xs ++ k ∷ []))
        ∙ ap (λ ks. counted ks (xs ++ k ∷ [])) (sym (firsts-snoc xs k))

    bump_all-tally : (ys xs : List K) → bump_all ys (tally xs) ≡ tally (xs ++ ys)
    bump_all-tally [] xs = ap tally (sym (append-nil xs))
    bump_all-tally (y ∷ ys) xs =
        ap (bump_all ys) (tally-snoc xs y)
        ∙ bump_all-tally ys (xs ++ y ∷ [])
        ∙ ap tally (append_assoc xs (y ∷ []) ys)

    -- Counted one by one, the names are tallied.
    pub bump_all-eq-tally : (xs : List K) → bump_all xs [] ≡ tally xs
    bump_all-eq-tally xs = bump_all-tally xs []

  pub bump_all-append :
      (xs ys : List K) (d : List (K × ℕ)) → bump_all (xs ++ ys) d ≡ bump_all ys (bump_all xs d)
  bump_all-append [] ys d = refl
  bump_all-append (x ∷ xs) ys d = bump_all-append xs ys (bump same x d)

  total-bump : (k : K) (d : List (K × ℕ)) → total (bump same k d) ≡ suc (total d)
  total-bump k [] = refl
  total-bump k ((j, n) ∷ d) = ground (arith, total-bump k d)

  total-bump_all : (xs : List K) (d : List (K × ℕ)) → total (bump_all xs d) ≡ total d + length xs
  total-bump_all [] d = omega arith
  total-bump_all (x ∷ xs) d = omega (arith, total-bump_all xs (bump same x d), total-bump x d)

  pub total-tally : IsEquality same → (xs : List K) → total (tally xs) ≡ length xs
  total-tally h xs = ap total (sym (bump_all-eq-tally h xs)) ∙ total-bump_all xs [] ∙ omega arith

  pub length-tally : (xs : List K) → length (tally xs) ≡ length (firsts xs)
  length-tally xs = length-map (firsts xs) (λ k. (k, occurrences k xs))
