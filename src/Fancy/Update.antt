-- ===== src/Fancy/Update.antt =====
-- `opForAll`: a lazy operation on the positions below `n`.
use native.Mathlib.Nat.{mod-mod}
use code_recipes.Common.{
  ℕ, ◌+◌, ◌*◌, ◌%◌, ◌≤◌, ◌<◌, ◌≡◌, arith, ltb, if◌then◌else◌, true, false, Bool-cases, inl, inr,
}
use code_recipes.Common.Result.{ok}
use code_recipes.Fancy.Tree.{modulus, Info, Segment, leaf, node, info, at_root, op_for_all}
use code_recipes.Fancy.Value.{Covers, Covers-node, Covers-bounds, IsClean, value}

-- The callback changes `a` and `b` so that the values change by `F`.
pub record IsLazy (f : Info → Info) (F : ℕ → ℕ) : Type 0 where
  pub same_l : (i : Info) → (f i).l ≡ i.l
  pub same_r : (i : Info) → (f i).r ≡ i.r
  pub same_c : (i : Info) → (f i).c ≡ i.c
  pub acts : (i : Info) (v : ℕ) → (v * (f i).a + (f i).b) % modulus ≡ F ((v * i.a + i.b) % modulus)
  pub reduced : (x : ℕ) → F x % modulus ≡ F x

-- The values below `n` have changed by `F`, and all others are as they were.
pub record Updated (F : ℕ → ℕ) (n lo hi : ℕ) (t t' : Segment) : Type 0 where
  pub covers : Covers t' lo hi
  pub clean : IsClean n t'
  pub below : (p : ℕ) → p < n → value p t' ≡ F (value p t)
  pub beyond : (p : ℕ) → n ≤ p → p < hi → value p t' ≡ value p t

pub value-reduced : (p : ℕ) (t : Segment) → value p t % modulus ≡ value p t
unfolding value
value-reduced p (leaf i) = mod-mod _ modulus
value-reduced p (node i lc rc) = mod-mod _ modulus

module _ (callback : Info → ℕ → Info) (x : ℕ) (F : ℕ → ℕ) (lazy : IsLazy (λ i. callback i x) F)
    (n : ℕ) where
  at_root-Covers : (t : Segment) (lo hi : ℕ) → Covers t lo hi → Covers (at_root callback x t) lo hi
  at_root-Covers (leaf i) lo hi h = ground (arith, lazy.same_l i, lazy.same_r i)
  at_root-Covers (node i lc rc) lo hi h = ground (arith, lazy.same_l i, lazy.same_r i)

  at_root-IsClean : (t : Segment) → (info t).r ≤ n → IsClean n t → IsClean n (at_root callback x t)
  at_root-IsClean (leaf i) le k = ground (arith, lazy.same_r i)
  at_root-IsClean (node i lc rc) le k = ground (arith, lazy.same_r i)

  at_root-value : (t : Segment) (p : ℕ) → value p (at_root callback x t) ≡ F (value p t)
  unfolding value
  at_root-value (leaf i) p = ground (arith, lazy.acts i i.c, lazy.same_c i)
  at_root-value (node i lc rc) p =
      lazy.acts i (if ltb p (info lc).r then value p lc else value p rc)

  at_root-Updated :
      (t : Segment) (lo hi : ℕ)
      → Covers t lo hi
      → IsClean n t
      → n ≡ hi
      → Updated F n lo hi t (at_root callback x t)
  at_root-Updated t lo hi h k e =
      let (_, r, _) = Covers-bounds t h in
      record {
        covers = at_root-Covers t lo hi h;
        clean = at_root-IsClean t (omega arith) k;
        below = λ p lt. at_root-value t p;
        beyond = λ p le lt. absurd (omega arith);
      }

  update-left :
      (i : Info) (lc lc' rc : Segment) (lo hi : ℕ)
      → Covers (node i lc rc) lo hi
      → IsClean n (node i lc rc)
      → n < i.r
      → n ≤ (info lc).r
      → Updated F n lo (info lc).r lc lc'
      → Updated F n lo hi (node i lc rc) (node i lc' rc)
  unfolding value
  update-left i lc lc' rc lo hi (il, ir, lm, mh, cl, cr) k past left s =
      let (_, r, _) = Covers-bounds lc' s.covers in
      record {
        covers = Covers-node i lc' rc lo (info lc).r hi il ir s.covers cr;
        clean = (k.0, s.clean, k.2);
        below = λ p lt. ground (arith, s.below p, r, value-reduced p lc, lazy.reduced (value p lc));
        beyond = λ p le lt. ground (arith, s.beyond p, r);
      }

  update-right :
      (i : Info) (lc rc rc' : Segment) (lo hi : ℕ)
      → Covers (node i lc rc) lo hi
      → IsClean n (node i lc rc)
      → n < i.r
      → (info lc).r < n
      → Updated F n (info lc).r hi rc rc'
      → Updated F n lo hi (node i lc rc) (node i (at_root callback x lc) rc')
  unfolding value
  update-right i lc rc rc' lo hi (il, ir, lm, mh, cl, cr) k past right s =
      let covered = at_root-Covers lc lo (info lc).r cl in
      let (_, r, _) = Covers-bounds (at_root callback x lc) covered in
      record {
        covers = Covers-node i (at_root callback x lc) rc' lo (info lc).r hi il ir covered s.covers;
        clean = (k.0, at_root-IsClean lc (omega arith) k.1, s.clean);
        below = λ p lt. ground (
          arith,
          s.below p,
          r,
          at_root-value lc p,
          value-reduced p lc,
          value-reduced p rc,
          lazy.reduced (value p lc),
          lazy.reduced (value p rc),
        );
        beyond = λ p le lt. ground (arith, s.beyond p, r);
      }

  -- `opForAll` returns normally where nothing has been done past `n`.
  pub op_for_all-Updated :
      (t : Segment) (lo hi : ℕ)
      → Covers t lo hi
      → IsClean n t
      → lo < n
      → n ≤ hi
      → (t' : Segment) × (op_for_all callback n x t ≡ ok t') × Updated F n lo hi t t'
  unfolding op_for_all
  op_for_all-Updated (leaf i) lo hi h k p q =
      let whole : ltb n i.r ≡ false = ground arith in
      (leaf (callback i x), rw whole, at_root-Updated (leaf i) lo hi h k (omega arith))
  op_for_all-Updated (node i lc rc) lo hi h k p q =
      let (il, ir, lm, mh, cl, cr) = h in
      elim (Bool-cases (ltb n i.r)) [
        | inr whole ↦ (
          node (callback i x) lc rc,
          rw whole,
          at_root-Updated (node i lc rc) lo hi h k (ground arith),
        )
        | inl part ↦
            let after : ltb i.l n ≡ true = ground arith in
            elim (Bool-cases (ltb (info lc).r n)) [
              | inl right ↦
                  let (rc', e, s) = op_for_all-Updated rc (info lc).r hi cr k.2 (ground arith) q in
                  (
                    node i (at_root callback x lc) rc',
                    rw (part, after, right, e),
                    update-right i lc rc rc' lo hi h k (ground arith) (ground arith) s,
                  )
              | inr left ↦
                  let (lc', e, s) = op_for_all-Updated lc lo (info lc).r cl k.1 p (ground arith) in
                  (
                    node i lc' rc,
                    rw (part, after, left, e),
                    update-left i lc lc' rc lo hi h k (ground arith) (ground arith) s,
                  )
            ]
      ]
