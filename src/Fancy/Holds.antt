-- ===== src/Fancy/Holds.antt =====
-- The operations of `Fancy` keep in step with a plain list of numbers.
use native.Mathlib.Nat.{mod-mod}
use code_recipes.Common.{
  ℕ, zero, suc, ◌+◌, ◌-◌, ◌*◌, ◌%◌, ◌≤◌, ◌<◌, ◌≡◌, refl, sym, ◌∙◌, ap, arith, ltb, leb, ◌==◌,
  if◌then◌else◌, true, Bool-cases, inl, inr, List, [], ◌∷◌, ◌++◌, map, length, length-append,
  length-map, get_elem?, some, ◌⊎◌,
}
use code_recipes.Common.Result.{ok}
use code_recipes.Fancy.Modular.{add_lazy, mul_lazy}
use code_recipes.Fancy.Tree.{
  modulus, Run, Info, Segment, leaf, node, info, fresh, construct_segment_tree, grow_tree,
  op_for_all, query,
}
use code_recipes.Fancy.Tree
use code_recipes.Fancy.Value.{Covers, Covers-bounds, IsClean, value, construct_segment_tree-Covers}
use code_recipes.Fancy.Append.{append-Appended}
use code_recipes.Fancy.Update.{IsLazy, op_for_all-Updated}
use code_recipes.Fancy.Grow.{grow_tree-Covers, IsClean-suc}
use code_recipes.Fancy.Sequence.{Fancy, new, append, add, mul, op_all}

-- The tree covers positions from 0 on, with at least as many as there are values, and nothing has
-- been done to it past them; the value at each position is that of the list, modulo the prime.
pub record Holds (f : Fancy) (vals : List ℕ) : Type 0 where
  pub counted : f.n ≡ length vals
  pub roomy : (0 < (info f.root).r) × (f.n ≤ (info f.root).r)
  pub covers : Covers f.root 0 (info f.root).r
  pub clean : IsClean f.n f.root
  pub values : (p v : ℕ) → get_elem? vals p ≡ some v → value p f.root ≡ v % modulus

-- `Fancy()` holds no value.
pub new-Holds : (f : Fancy) × (new ≡ ok f) × Holds f []
unfolding new
new-Holds =
    let (t, e, c, k) = construct_segment_tree-Covers 0 10 (omega arith) in
    let (_, r, _) = Covers-bounds t c in
    (
      record { root = t; n = 0 },
      rw e,
      record {
        counted = refl;
        roomy = (omega arith, omega arith);
        covers = rw r c;
        clean = k 0;
        values = λ p v h. cc;
      },
    )

-- The lazy operations do what they say.
pub add-IsLazy : (inc : ℕ) → IsLazy (λ i. add i inc) (λ v. (v + inc) % modulus)
add-IsLazy inc = record {
  same_l = λ i. refl;
  same_r = λ i. refl;
  same_c = λ i. refl;
  acts = λ i v. add_lazy v i.a i.b inc;
  reduced = λ x. mod-mod (x + inc) modulus;
}

pub mul-IsLazy : (m : ℕ) → IsLazy (λ i. mul i m) (λ v. (v * m) % modulus)
mul-IsLazy m = record {
  same_l = λ i. refl;
  same_r = λ i. refl;
  same_c = λ i. refl;
  acts = λ i v. mul_lazy v i.a i.b m;
  reduced = λ x. mod-mod (x * m) modulus;
}

get_elem?-map-inv :
    (g : ℕ → ℕ) (xs : List ℕ) (p : ℕ) {v : ℕ}
    → get_elem? (map g xs) p ≡ some v
    → (u : ℕ) × (get_elem? xs p ≡ some u) × (v ≡ g u)
get_elem?-map-inv g [] p h = cc
get_elem?-map-inv g (x ∷ xs) zero h = (x, refl, ground arith)
get_elem?-map-inv g (x ∷ xs) (suc p) h = get_elem?-map-inv g xs p h

pub get_elem?-bound : (xs : List ℕ) (p : ℕ) {v : ℕ} → get_elem? xs p ≡ some v → p < length xs
get_elem?-bound [] p h = cc
get_elem?-bound (x ∷ xs) zero h = omega arith
get_elem?-bound (x ∷ xs) (suc p) h = omega (arith, get_elem?-bound xs p h)

pub op_all-Holds :
    (callback : Info → ℕ → Info) (x : ℕ) (F g : ℕ → ℕ)
    → IsLazy (λ i. callback i x) F
    → ((v : ℕ) → F (v % modulus) ≡ g v % modulus)
    → (f : Fancy) (vals : List ℕ) → Holds f vals
    → (f' : Fancy) × (op_all callback x f ≡ ok f') × Holds f' (map g vals)
op_all-Holds callback x F g lazy agree f vals h = elim (Bool-cases (f.n == 0)) [
  | inl none_yet ↦ (
    f,
    rw none_yet,
    record {
      counted = rw length-map h.counted;
      roomy = h.roomy;
      covers = h.covers;
      clean = h.clean;
      values = λ p v at.
          let (w, from, _) = get_elem?-map-inv g vals p at in
          absurd (ground (arith, get_elem?-bound vals p from, h.counted));
    },
  )
  | inr some_there ↦
      let (t, e, u) =
        op_for_all-Updated callback x F lazy f.n f.root 0 (info f.root).r h.covers h.clean
          (ground arith) h.roomy.1 in
      let (_, r, _) = Covers-bounds t u.covers in
      (
        record f { root = t },
        rw (some_there, e),
        record {
          counted = rw length-map h.counted;
          roomy = rw r h.roomy;
          covers = rw r u.covers;
          clean = u.clean;
          values = λ p v at.
              let (w, from, e) = get_elem?-map-inv g vals p at in
              u.below p (omega (arith, get_elem?-bound vals p from, h.counted))
              ∙ ap F (h.values p w from)
              ∙ agree w
              ∙ ap (λ (z : ℕ). z % modulus) (sym e);
        },
      )
]

-- The tree that `append` writes into.
room_for_one :
    (f : Fancy) (vals : List ℕ)
    → Holds f vals
    → (t : Segment) × (r : ℕ) × ((if ltb (info f.root).r (f.n + 1)
          then grow_tree f.root
          else ok f.root)
        ≡ ok t)
      × Covers t 0 r
      × (f.n + 1 ≤ r)
      × IsClean f.n t
      × ((p : ℕ) → p < f.n → value p t ≡ value p f.root)
room_for_one f vals h = elim (Bool-cases (ltb (info f.root).r (f.n + 1))) [
  | inl full ↦
      let (t, e, c, k, s) =
        grow_tree-Covers f.root f.n (info f.root).r h.roomy.0 h.roomy.1 h.covers h.clean in
      let size = h.roomy in (t, (info f.root).r * 2, rw full e, c, omega arith, k, s)
  | inr room ↦ (f.root, (info f.root).r, rw room, h.covers, ground arith, h.clean, λ p lt. refl)
]

get_elem?-append-inv :
    (xs : List ℕ) (x p : ℕ) {v : ℕ}
    → get_elem? (xs ++ x ∷ []) p ≡ some v
    → ((p < length xs) × (get_elem? xs p ≡ some v)) ⊎ ((p ≡ length xs) × (v ≡ x))
get_elem?-append-inv [] x zero h = inr (refl, ground arith)
get_elem?-append-inv [] x (suc p) h = cc
get_elem?-append-inv (y ∷ xs) x zero h = inl (omega arith, h)
get_elem?-append-inv (y ∷ xs) x (suc p) h = elim (get_elem?-append-inv xs x p h) [
  | inl (lt, at) ↦ inl (omega arith, at)
  | inr (e, at) ↦ inr (ap suc e, at)
]

append_lem :
    (v : ℕ) (f : Fancy) (t t' : Segment)
    → (if ltb (info f.root).r (f.n + 1) then grow_tree f.root else ok f.root) ≡ ok t
    → f.n + 1 ≤ (info t).r
    → Tree.append f.n v t ≡ ok t'
    → append v f ≡ ok (record { root = t'; n = f.n + 1 })
unfolding append
append_lem v f t t' grown fits written =
    let last : f.n + 1 - 1 ≡ f.n = omega arith in
    let fits' : leb (f.n + 1) (info t).r ≡ true = ground arith in rw (grown, fits', last, written)

-- `append` adds the value at the end.
pub append-Holds :
    (v : ℕ) (f : Fancy) (vals : List ℕ)
    → Holds f vals
    → (f' : Fancy) × (append v f ≡ ok f') × Holds f' (vals ++ v ∷ [])
append-Holds v f vals h =
    let (t, r, grown, c, fits, k, same) = room_for_one f vals h in
    let (t', written, s) = append-Appended f.n v t 0 r c k (omega arith) (omega arith) in
    let (_, rt, _) = Covers-bounds t c in
    let (_, rt', _) = Covers-bounds t' s.covers in
    (
      record { root = t'; n = f.n + 1 },
      append_lem v f t t' grown (omega arith) written,
      record {
        counted = omega (arith, length-append vals (v ∷ []), h.counted);
        roomy = (omega arith, omega arith);
        covers = rw rt' s.covers;
        clean = IsClean-suc f.n t' s.clean;
        values = λ p w at. elim (get_elem?-append-inv vals v p at) [
          | inl (lt, old) ↦
              s.others p (omega arith) (omega (arith, h.counted)) (ground (arith, h.counted))
              ∙ same p (omega (arith, h.counted))
              ∙ h.values p w old
          | inr (e, new_one) ↦ cc (s.here, h.counted)
        ];
      },
    )
