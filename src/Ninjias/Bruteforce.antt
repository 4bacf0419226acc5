-- ===== src/Ninjias/Bruteforce.antt =====
-- `ninjas_bruteforce` against the circle.
use code_recipes.Common.{
  ℕ, zero, suc, ◌+◌, ◌≤◌, ◌<◌, ◌≡◌, refl, sym, ap, ◌∙◌, true, false, ◌==◌, arith, Option, none,
  some, List, [], ◌∷◌, ◌++◌, length, length-append, Bool-cases, inl, inr,
}
use code_recipes.Common.Eq.{nat_eq}
use code_recipes.Common.Sort.{elem, Distinct}
use code_recipes.Common.Result.{ok}
use code_recipes.Ninjias.{ninjias}
use code_recipes.Ninjias.Circle.{survivor, range_from, ninjias-survivor}
use code_recipes.Ninjias.Links.{
  Links, relink_prev, set_next, unlinked, remove, kill_round, kill_loop, data_of, ninjas_bruteforce,
  circle_of,
}
use code_recipes.Ninjias.Build.{circle_of-Arc, circle_of-t}
use code_recipes.Ninjias.Ring.{Arc, remove-Arc, remove-Path_last, elem-snoc, Distinct-snoc}

kill_loop-round :
    (fuel p : ℕ) (s : Links) (n : Option ℕ)
    → s.next p ≡ n
    → kill_loop (suc fuel) (some p) s
      ≡ kill_round p s n (λ a. kill_loop fuel ((remove a s).1.next p) (remove a s).1)
unfolding kill_loop
kill_loop-round fuel p s n e =
    ap (λ n. kill_round p s n (λ a. kill_loop fuel ((remove a s).1.next p) (remove a s).1)) e

kill_loop-stop :
    (fuel : ℕ) (p : ℕ) (s : Links)
    → s.next p ≡ some p
    → kill_loop (suc fuel) (some p) s ≡ ok (some p, s)
kill_loop-stop fuel p s n =
    (let same : (p == p) ≡ true = ground arith in
      kill_loop-round fuel p s (some p) n ∙ rw same refl)

kill_loop-step :
    (fuel p a b : ℕ) (s : Links)
    → s.next p ≡ some a
    → (a == p) ≡ false
    → (remove a s).1.next p ≡ some b
    → kill_loop (suc fuel) (some p) s ≡ kill_loop fuel (some b) (remove a s).1
kill_loop-step fuel p a b s n other m =
    kill_loop-round fuel p s (some a) n ∙ rw other (ap (λ b. kill_loop fuel b (remove a s).1) m)

-- Removing a node leaves the data of all.
remove-t : (s : Links) (a : ℕ) → (remove a s).1.t ≡ s.t
remove-t s a = go (s.prev a) (s.next a)
  where
    relink-t : (b v : Option ℕ) (s : Links) → (relink_prev b v s).t ≡ s.t
    relink-t none v s = refl
    relink-t (some b) v s = refl

    go : (p n : Option ℕ) → (unlinked p n s).1.t ≡ s.t
    go (some p) n = relink-t n (some p) (set_next p n s)
    go none n = relink-t n none s

-- The loop ends at the survivor of the ring.
kill_loop-survivor :
    (fuel : ℕ) (s : Links) (p : ℕ) (xs : List ℕ)
    → Arc s p xs p
    → Distinct (p ∷ xs)
    → suc (length xs) ≤ fuel
    → (q : ℕ) × (left : Links) × (kill_loop fuel (some p) s ≡ ok (some q, left))
      × (survivor fuel (p ∷ xs) ≡ some q)
      × (left.t ≡ s.t)
unfolding survivor elem
kill_loop-survivor zero s p xs r d f = absurd (omega arith)
kill_loop-survivor (suc fuel) s p [] r d f = (p, s, kill_loop-stop fuel p s r.0, refl, refl)
kill_loop-survivor (suc zero) s p (a ∷ xs) r d f = absurd (omega arith)
kill_loop-survivor (suc (suc fuel)) s p (a ∷ []) r d f =
    let other : (a == p) ≡ false = ground arith in
    let last = remove-Path_last s p a r in
    (
      p,
      (remove a s).1,
      kill_loop-step (suc fuel) p a p s r.0.0 other last.0
          ∙ kill_loop-stop fuel p (remove a s).1 last.0,
      refl,
      remove-t s a,
    )
kill_loop-survivor (suc (suc fuel)) s p (a ∷ b ∷ rest) r d f =
    let other : (a == p) ≡ false = ground arith in
    let out : elem p (b ∷ rest) ≡ false = ground arith in
    let clear : elem b (rest ++ p ∷ []) ≡ false = ground (arith, elem-snoc b rest p) in
    let left = remove-Arc s p a b rest out clear r in
    let distinct : Distinct (b ∷ (rest ++ p ∷ [])) =
      (clear, Distinct-snoc rest p (ground arith) d.1.1.1) in
    let rest' =
      kill_loop-survivor (suc fuel) (remove a s).1 b (rest ++ p ∷ []) left.1 distinct
        (omega (arith, length-append rest (p ∷ []))) in
    (
      rest'.0,
      rest'.1,
      kill_loop-step (suc fuel) p a b s r.0.0 other left.0 ∙ rest'.2,
      rest'.3,
      rest'.4 ∙ remove-t s a,
    )

elem-range_from :
    (start n q : ℕ) → elem q (range_from start n) ≡ true → (start ≤ q) × (q < start + n)
unfolding elem
elem-range_from start zero q h = cc
elem-range_from start (suc n) q h = ground (arith, elem-range_from (suc start) n q)

range_from-Distinct : (start n : ℕ) → Distinct (range_from start n)
range_from-Distinct start zero = tt
range_from-Distinct start (suc n) = (
  elim (Bool-cases (elem start (range_from (suc start) n))) [
    | inl there ↦ (let after = elem-range_from (suc start) n start there in absurd (omega arith))
    | inr fine ↦ fine
  ],
  range_from-Distinct (suc start) n,
)

survivor-elem : (fuel : ℕ) (xs : List ℕ) (q : ℕ) → survivor fuel xs ≡ some q → elem q xs ≡ true
unfolding survivor elem
survivor-elem fuel [] q h = ground arith
survivor-elem fuel (x ∷ []) q h = ground arith
survivor-elem zero (x ∷ y ∷ rest) q h = ground arith
survivor-elem (suc fuel) (x ∷ y ∷ rest) q h =
    ground (arith, survivor-elem fuel (rest ++ x ∷ []) q, elem-snoc q rest x)

length-range : (start n : ℕ) → length (range_from start n) ≡ n
length-range start zero = refl
length-range start (suc n) = ap suc (length-range (suc start) n)

-- For one or more ninjas the linked circle, killed off round by round, leaves the one that the recursive
-- function answers with, and that the circle of 0 up to `n - 1` as a list leaves: no call meets a missing
-- link, and a round for each ninja is enough.
pub ninjas_bruteforce-eq-ninjias :
    (n : ℕ)
    → (q : ℕ) × (ninjas_bruteforce (suc n) (suc n) ≡ ok (some q))
      × (ninjias (suc n) (suc n) ≡ some q)
      × (survivor (suc n) (range_from 0 (suc n)) ≡ some q)
unfolding ninjas_bruteforce
ninjas_bruteforce-eq-ninjias n =
    let ring = circle_of-Arc n in
    let left =
      kill_loop-survivor (suc n) (circle_of (suc n)) 0 (range_from 1 n) ring
        (range_from-Distinct 0 (suc n)) (omega (arith, length-range 1 n)) in
    let answer = ninjias-survivor n in
    let inside = survivor-elem (suc n) (range_from 0 (suc n)) left.0 left.3 in
    let low = elem-range_from 0 (suc n) left.0 inside in
    let number = ap (λ t. t left.0) left.4 ∙ circle_of-t n left.0 (omega arith) in
    (left.0, ap data_of left.2 ∙ ap ok number, answer.1 ∙ (sym answer.2 ∙ left.3), left.3)
