-- ===== src/VersionedGraph/Bfs/Visit.antt =====
-- What a step of `bfs` visits.
use code_recipes.Common.{
  ◌≡◌, refl, sym, ap, ◌∙◌, Bool, true, false, not, ◌&&◌, ◌||◌, arith, List, [], ◌∷◌, Bool-cases,
  inl, inr,
}
use code_recipes.Common.Eq.{int_eq, int_beq, int_beq_iff}
use code_recipes.Common.Int.{ℤ}
use code_recipes.Common.Sort.{elem}
use code_recipes.VersionedGraph.Bfs.{visit}

pub true-false : ◌≡◌ {A = Bool} true false → ⊥
true-false h = cc

same_elem : (x u : ℤ) (xs : List ℤ) → int_beq u x ≡ true → elem x xs ≡ elem u xs
same_elem x u xs h = ap (λ z. elem z xs) (sym ((int_beq_iff u x).0 h))

or-not : (b c d e : Bool) → (b ≡ true → c ≡ d) → d ≡ true → (c || e) ≡ (c || (b || e))
or-not true true d e f h = refl
or-not true false true e f h = (let clash = f refl in cc)
or-not true false false e f h = cc
or-not false c d e f h = refl

or_and-not :
    (b c d e k : Bool)
    → (b ≡ true → c ≡ d)
    → d ≡ true
    → (k || (e && not c)) ≡ (k || ((b || e) && not c))
or_and-not true true true e k f h = ground arith
or_and-not true false true e k f h = (let clash = f refl in cc)
or_and-not true c false e k f h = cc
or_and-not false c d e k f h = refl

or_swap : (b c e : Bool) → ((b || c) || e) ≡ (c || (b || e))
or_swap b c e = ground arith

or_and-new :
    (b c d e k : Bool)
    → (b ≡ true → c ≡ d)
    → d ≡ false
    → ((b || k) || (e && not (b || c))) ≡ (k || ((b || e) && not c))
or_and-new true c d e k f h = (let out = f refl ∙ h in ground arith)
or_and-new false c d e k f h = refl

pub elem-cons : (x u : ℤ) (xs : List ℤ) → elem x (u ∷ xs) ≡ (int_beq u x || elem x xs)
unfolding elem
elem-cons x u xs = refl

pub elem-nil : (x : ℤ) → elem x [] ≡ false
unfolding elem
elem-nil x = refl

pub visit-elem :
    (x : ℤ) (us visited frontier : List ℤ)
    → (elem x (visit us visited frontier).0 ≡ (elem x visited || elem x us))
      × (elem x (visit us visited frontier).1
          ≡ (elem x frontier || (elem x us && not (elem x visited))))
unfolding visit
visit-elem x [] visited frontier = ground (arith, elem-nil x)
visit-elem x (u ∷ us) visited frontier = elim (Bool-cases (elem u visited)) [
  | inl seen ↦ rw seen (
    (visit-elem x us visited frontier).0
        ∙ or-not (int_beq u x) (elem x visited) (elem u visited) (elem x us) (same_elem x u visited)
            seen,
    (visit-elem x us visited frontier).1
        ∙ or_and-not (int_beq u x) (elem x visited) (elem u visited) (elem x us) (elem x frontier)
            (same_elem x u visited) seen,
  )
  | inr new ↦ rw new (
    (visit-elem x us (u ∷ visited) (u ∷ frontier)).0
        ∙ or_swap (int_beq u x) (elem x visited) (elem x us),
    (visit-elem x us (u ∷ visited) (u ∷ frontier)).1
        ∙ or_and-new (int_beq u x) (elem x visited) (elem u visited) (elem x us) (elem x frontier)
            (same_elem x u visited) new,
  )
]
