-- ===== src/VersionedGraph/Search/Correct.antt =====
-- Both searches find the last version that is not newer than the one asked for.
use native.Mathlib.Decide.{ℕ_discrete}
use code_recipes.Common.{
  ℕ, zero, suc, ◌+◌, ◌-◌, ◌/◌, ◌≤◌, ◌<◌, ◌≡◌, subst, sym, ◌∙◌, ap, Bool, true, false, none, some,
  List, arith, ltb, if◌then◌else◌, length, get_elem?, Bool-cases, inl, inr,
}
use code_recipes.Common.Int.{ℤ, pos, ltb_ℤ, leb_ℤ}
use code_recipes.Common.Bisect.{
  bisect_right, bisect_right-Splits, Splits, IsMonotone, get_elem?-some, get_elem?-beyond,
  Splits-unique, low_before, bisect_right-map,
}
use code_recipes.Common.Result.{ok}
use code_recipes.VersionedGraph.Search.{
  Version, newer, search_loop, search_for_version, search_for_version_easy,
}

-- The version numbers grow.
abbrev pub Ascending : List Version → Type 0
Ascending vs =
    (i j : ℕ) (x y : Version)
    → i < j
    → get_elem? vs i ≡ some x
    → get_elem? vs j ≡ some y
    → x.v < y.v

module _ (target : ℤ) (vs : List Version) (asc : Ascending vs) where
  same_entry :
      (i : ℕ) (x y : Version) {b : Bool}
      → get_elem? vs i ≡ some x
      → newer target x ≡ b
      → get_elem? vs i ≡ some y
      → newer target y ≡ b
  same_entry i x y {b} p h q = let one : x ≡ y = cc in subst (λ z. newer target z ≡ b) one h

  newer-IsMonotone : IsMonotone (newer target) vs
  newer-IsMonotone i j a b le p q e = elim (ℕ_discrete i j) [
    | yes same ↦ let one : a ≡ b = cc in subst (λ z. newer target z ≡ true) one e
    | no apart ↦ ground (arith, asc i j a b (omega arith) p q)
  ]

  -- From an entry that is not newer, with none that is not newer past `high`.
  search_loop-Splits :
      (fuel low high : ℕ)
      → high - low < fuel
      → low ≤ high
      → high < length vs
      → ((x : Version) → get_elem? vs low ≡ some x → newer target x ≡ false)
      → ((i : ℕ) (x : Version) → high < i → get_elem? vs i ≡ some x → newer target x ≡ true)
      → (n : ℕ) × (search_loop fuel target vs low high ≡ ok n) × Splits (newer target) vs (suc n)
  unfolding search_loop
  search_loop-Splits zero low high f le bound old new = absurd (omega arith)
  search_loop-Splits (suc fuel) low high f le bound old new = elim (Bool-cases (ltb low high)) [
    | inr done ↦
        let (x, at) = get_elem?-some vs low (omega arith) in
        (
          low,
          rw done,
          record {
            bounded = omega arith;
            below = λ i a p.
                low_before (newer target) vs newer-IsMonotone low x at (old x at) i a (omega arith);
            beyond = λ i a p. new i a (ground arith);
          },
        )
    | inl more ↦
        let (m, at_mid) = get_elem?-some vs ((low + high) / 2 + 1) (ground arith) in
        rw (more, at_mid)
          (elim (Bool-cases (leb_ℤ (pos m.v) target)) [
            | inl up ↦ rw up (
                search_loop-Splits fuel ((low + high) / 2 + 1) high (ground arith) (ground arith)
                  bound (λ x. same_entry ((low + high) / 2 + 1) m x at_mid (ground arith)) new)
            | inr down ↦
                let found : newer target m ≡ true = ground arith in
                rw down (
                  search_loop-Splits fuel low ((low + high) / 2 + 1 - 1) (ground arith)
                    (ground arith) (ground arith) old
                    (λ i x p at.
                      newer-IsMonotone ((low + high) / 2 + 1) i m x (omega arith) at_mid at found))
          ])
  ]

  -- On one version or more, whose numbers grow, the search returns normally. It answers none if there
  -- is no version that is not newer than the one asked for, and else the place of the last such
  -- version.
  pub search_for_version_lem :
      0 < length vs
      → (n : ℕ) × Splits (newer target) vs n
        × (search_for_version target vs ≡ ok (if ltb 0 n then some (n - 1) else none))
  unfolding search_for_version
  search_for_version_lem filled =
      let (x, at) = get_elem?-some vs 0 filled in
      elim (Bool-cases (newer target x)) [
        | inl late ↦ (
          0,
          record {
            bounded = omega arith;
            below = λ i a p q. absurd (omega arith);
            beyond = λ i a p q. newer-IsMonotone 0 i x a (omega arith) at q late;
          },
          rw (at, late),
        )
        | inr old ↦
            let (n, found, s) =
              search_loop-Splits (length vs + 1) 0 (length vs - 1) (omega arith) (omega arith)
                (omega arith) (λ y. same_entry 0 x y at old)
                (λ i y p q. absurd (get_elem?-beyond vs i (omega arith) q)) in
            (suc n, s, rw (at, old, found) (ground arith))
      ]

  easy-Splits :
      (n : ℕ)
      → 0 < length vs
      → Splits (newer target) vs n
      → search_for_version_easy target vs ≡ (if ltb 0 n then some (n - 1) else none)
  unfolding search_for_version_easy
  easy-Splits n filled s =
      let (x, at) = get_elem?-some vs 0 filled in
      let one : n ≡ bisect_right (newer target) vs =
        Splits-unique (newer target) vs n _ s
          (bisect_right-Splits (newer target) vs newer-IsMonotone) in
      let mapped = bisect_right-map (λ (y : Version). y.v) (λ y. ltb_ℤ target (pos y)) vs in
      rw (at, search_for_version_easy, mapped, ← one) (ground (arith, s.below 0 x, at))

  -- On one version or more, whose numbers grow, the hand-written search and the one by `bisect_right` agree.
  pub search_for_version-eq-easy :
      0 < length vs → search_for_version target vs ≡ ok (search_for_version_easy target vs)
  search_for_version-eq-easy filled =
      let (n, s, found) = search_for_version_lem filled in
      found ∙ ap ok (sym (easy-Splits n filled s))
