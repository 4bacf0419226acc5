-- ===== src/SortedArrays/Cuts.antt =====
-- A rank in two sorted lists, and in what is left of them when one is cut.
use code_recipes.Common.{
  ℕ, suc, ◌+◌, ◌-◌, ◌≤◌, ◌<◌, ◌≡◌, sym, ap, true, false, List, ◌++◌, arith, take, drop, get_elem?,
  some, Bool-cases, inl, inr,
}
use code_recipes.Common.Int.{ℤ, ltb_ℤ}
use code_recipes.Common.Sort.{IsSorted}
use code_recipes.SortedArrays.Counts.{
  passes, count, count-append, count-split, count-le, length-take_le, count-take, count-take_below,
  count-drop, count-drop_next,
}

-- `v` stands at place `r` of the sorted entries: at most `r` are less, and more than `r` are not greater.
pub record IsRank (v : ℤ) (r : ℕ) (xs : List ℤ) : Type 0 where
  pub few : count true v xs ≤ r
  pub many : r < count false v xs

pub IsRank-swap : (v : ℤ) (r : ℕ) (xs ys : List ℤ) → IsRank v r (xs ++ ys) → IsRank v r (ys ++ xs)
IsRank-swap v r xs ys h = record {
  few = omega (arith, h.few, count-append true v xs ys, count-append true v ys xs);
  many = omega (arith, h.many, count-append false v xs ys, count-append false v ys xs);
}

module _ (v u w : ℤ) (a b : List ℤ) (ma mb r : ℕ) (sa : IsSorted ltb_ℤ a) (sb : IsSorted ltb_ℤ b)
    (at_a : get_elem? a ma ≡ some u) (at_b : get_elem? b mb ≡ some w)
    (u_le_w : ltb_ℤ w u ≡ false) where
  -- The entries from `b[mb]` on are above the rank.
  pub keep_low : r < ma + mb + 1 → IsRank v r (a ++ take mb b) → IsRank v r (a ++ b)
  keep_low l h = elim (Bool-cases (passes true v w)) [
    | inl below ↦
        let u_below : passes true v u ≡ true = ground arith in
        absurd (
          omega (
            arith,
            h.few,
            count-append true v a (take mb b),
            count-take_below true v b mb sb at_b below,
            count-split true v (suc ma) a,
            count-take true v a ma sa at_a u_below,
          ))
    | inr above ↦ record {
      few = omega (
        arith,
        h.few,
        count-append true v a (take mb b),
        count-append true v a b,
        count-split true v mb b,
        count-drop true v b mb sb at_b above,
      );
      many = omega (
        arith,
        h.many,
        count-append false v a (take mb b),
        count-append false v a b,
        count-split false v mb b,
      );
    }
  ]

  -- The entries up to `a[ma]` are below the rank.
  pub keep_high :
      ma + mb + 1 ≤ r → IsRank v (r - (ma + 1)) (drop (ma + 1) a ++ b) → IsRank v r (a ++ b)
  keep_high l h = elim (Bool-cases (passes false v u)) [
    | inl below ↦
        let split = count-split true v (suc ma) a in
        let split' = count-split false v (suc ma) a in
        let size : suc ma ≡ ma + 1 = omega arith in
        let part : count true v (drop (ma + 1) a) ≡ count true v (drop (suc ma) a) =
          ap (λ n. count true v (drop n a)) (sym size) in
        let part' : count false v (drop (ma + 1) a) ≡ count false v (drop (suc ma) a) =
          ap (λ n. count false v (drop n a)) (sym size) in
        record {
          few = omega (
            arith,
            h.few,
            count-append true v (drop (ma + 1) a) b,
            count-append true v a b,
            count-le true v (take (suc ma) a),
            length-take_le (suc ma) a,
          );
          many = omega (
            arith,
            h.many,
            count-append false v (drop (ma + 1) a) b,
            count-append false v a b,
            count-take false v a ma sa at_a below,
          );
        }
    | inr above ↦
        let w_above : passes false v w ≡ false = ground arith in
        let size : suc ma ≡ ma + 1 = omega arith in
        let part' : count false v (drop (ma + 1) a) ≡ count false v (drop (suc ma) a) =
          ap (λ n. count false v (drop n a)) (sym size) in
        absurd (
          omega (
            arith,
            h.many,
            count-append false v (drop (ma + 1) a) b,
            count-split false v mb b,
            count-drop false v b mb sb at_b w_above,
            count-le false v (take mb b),
            length-take_le mb b,
            count-drop_next false v a ma sa at_a above,
          ))
  ]
