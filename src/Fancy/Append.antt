-- ===== src/Fancy/Append.antt =====
-- `append` on segment trees.
use native.Mathlib.Nat.{mod-mod}
use code_recipes.Common.{
  ℕ, ◌+◌, ◌%◌, ◌≤◌, ◌<◌, ◌≡◌, arith, ltb, ◌==◌, true, false, Bool-cases, inl, inr,
}
use code_recipes.Common.Result.{ok}
use code_recipes.Fancy.Tree.{modulus, Info, Segment, leaf, node, info, put, append}
use code_recipes.Fancy.Value.{Covers, Covers-node, Covers-bounds, IsClean, value}

-- A tree where position `pos` holds a value that nothing has been done to, and all else is as in `t`.
pub record Appended (pos v lo hi : ℕ) (t t' : Segment) : Type 0 where
  pub covers : Covers t' lo hi
  pub clean : IsClean pos t'
  pub here : value pos t' ≡ v % modulus
  pub others : (p : ℕ) → lo ≤ p → p < hi → (p == pos) ≡ false → value p t' ≡ value p t

module _ (pos v : ℕ) where
  append-leaf :
      (i : Info) (lo hi : ℕ)
      → Covers (leaf i) lo hi
      → IsClean pos (leaf i)
      → lo ≤ pos
      → pos < hi
      → Appended pos v lo hi (leaf i) (leaf (put v i))
  unfolding value
  append-leaf i lo hi h k p q = record {
    covers = ground arith;
    clean = ground arith;
    here = ground arith;
    others = λ j a b c. absurd (ground arith);
  }

  append-left :
      (i : Info) (lc lc' rc : Segment) (lo hi : ℕ)
      → Covers (node i lc rc) lo hi
      → IsClean pos (node i lc rc)
      → pos < (info lc).r
      → Appended pos v lo (info lc).r lc lc'
      → Appended pos v lo hi (node i lc rc) (node i lc' rc)
  unfolding value
  append-left i lc lc' rc lo hi (il, ir, lm, mh, cl, cr) k left s =
      let (_, r, _) = Covers-bounds lc' s.covers in
      record {
        covers = Covers-node i lc' rc lo (info lc).r hi il ir s.covers cr;
        clean = (k.0, s.clean, k.2);
        here = ground (arith, s.here, r, mod-mod v modulus);
        others = λ j a b c. ground (arith, s.others j, r);
      }

  append-right :
      (i : Info) (lc rc rc' : Segment) (lo hi : ℕ)
      → Covers (node i lc rc) lo hi
      → IsClean pos (node i lc rc)
      → (info lc).r ≤ pos
      → pos < hi
      → Appended pos v (info lc).r hi rc rc'
      → Appended pos v lo hi (node i lc rc) (node i lc rc')
  unfolding value
  append-right i lc rc rc' lo hi (il, ir, lm, mh, cl, cr) k right q s = record {
    covers = Covers-node i lc rc' lo (info lc).r hi il ir cl s.covers;
    clean = (k.0, k.1, s.clean);
    here = ground (arith, s.here, mod-mod v modulus);
    others = λ j a b c. ground (arith, s.others j);
  }

  -- `append` returns normally at a position that the tree covers and that nothing has been done to.
  pub append-Appended :
      (t : Segment) (lo hi : ℕ)
      → Covers t lo hi
      → IsClean pos t
      → lo ≤ pos
      → pos < hi
      → (t' : Segment) × (append pos v t ≡ ok t') × Appended pos v lo hi t t'
  unfolding append
  append-Appended (leaf i) lo hi h k p q =
      (leaf (put v i), ground arith, append-leaf i lo hi h k p q)
  append-Appended (node i lc rc) lo hi h k p q =
      let (il, ir, lm, mh, cl, cr) = h in
      let inner : ltb (i.l + 1) i.r ≡ true = ground arith in
      elim (Bool-cases (ltb pos (info lc).r)) [
        | inl left ↦
            let (lc', e, s) = append-Appended lc lo (info lc).r cl k.1 p (ground arith) in
            (node i lc' rc, rw (inner, left, e), append-left i lc lc' rc lo hi h k (ground arith) s)
        | inr right ↦
            let (rc', e, s) = append-Appended rc (info lc).r hi cr k.2 (ground arith) q in
            (
              node i lc rc',
              rw (inner, right, e),
              append-right i lc rc rc' lo hi h k (ground arith) q s,
            )
      ]
