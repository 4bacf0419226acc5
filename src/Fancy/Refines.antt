-- ===== src/Fancy/Refines.antt =====
-- `Fancy` implements a plain list of numbers.
use code_recipes.Common.{
  ℕ, zero, suc, ◌+◌, ◌*◌, ◌%◌, ◌≤◌, ◌≡◌, refl, sym, ap, arith, leb, Bool-cases, inl, inr, List, [],
  ◌∷◌, ◌++◌, map, length, get_elem?, Option, none, some,
}
use native.Mathlib.Nat.{mod-add-mod}
use code_recipes.Common.Int.{ℤ, pos, negsuc}
use code_recipes.Common.Bisect.{get_elem?-some}
use code_recipes.Common.Result.{ok, ◌>>=◌}
use code_recipes.Fancy.Modular.{mod-mul-mod}
use code_recipes.Fancy.Tree.{modulus, Run, info}
use code_recipes.Fancy.Value.{query-value}
use code_recipes.Fancy.Sequence
use code_recipes.Fancy.Sequence.{Fancy, new, add, mul, get_index}
use code_recipes.Fancy.Holds.{Holds, new-Holds, add-IsLazy, mul-IsLazy, op_all-Holds, append-Holds}

-- A call of a method that changes the sequence.
pub data Op : Type 0 where
  append : ℕ → Op
  add_all : ℕ → Op
  mult_all : ℕ → Op

unfoldable pub apply : Op → Fancy → Run Fancy
apply (Op.append v) f = Sequence.append v f
apply (Op.add_all inc) f = Sequence.add_all inc f
apply (Op.mult_all m) f = Sequence.mult_all m f

unfoldable pub run : List Op → Fancy → Run Fancy
unfolding apply
run [] f = ok f
run (op ∷ ops) f = do f' ← apply op f; run ops f'

-- The specification: the calls on a plain list.
abbrev pub apply_list : Op → List ℕ → List ℕ
apply_list (Op.append v) vals = vals ++ v ∷ []
apply_list (Op.add_all inc) vals = map (λ v. v + inc) vals
apply_list (Op.mult_all m) vals = map (λ v. v * m) vals

abbrev pub run_list : List Op → List ℕ → List ℕ
run_list [] vals = vals
run_list (op ∷ ops) vals = run_list ops (apply_list op vals)

abbrev pub get_list : ℕ → List ℕ → ℤ
get_list idx vals = elim (get_elem? vals idx) [ none ↦ negsuc 0 | some v ↦ pos (v % modulus) ]

apply-Holds :
    (op : Op) (f : Fancy) (vals : List ℕ)
    → Holds f vals
    → (f' : Fancy) × (apply op f ≡ ok f') × Holds f' (apply_list op vals)
unfolding apply Sequence.add_all Sequence.mult_all
apply-Holds (Op.append v) f vals h = append-Holds v f vals h
apply-Holds (Op.add_all inc) f vals h =
    op_all-Holds add inc (λ v. (v + inc) % modulus) (λ v. v + inc) (add-IsLazy inc)
      (λ v. mod-add-mod v modulus inc) f vals h
apply-Holds (Op.mult_all m) f vals h =
    op_all-Holds mul m (λ v. (v * m) % modulus) (λ v. v * m) (mul-IsLazy m) (λ v. mod-mul-mod v m) f
      vals h

run-Holds :
    (ops : List Op) (f : Fancy) (vals : List ℕ)
    → Holds f vals
    → (f' : Fancy) × (run ops f ≡ ok f') × Holds f' (run_list ops vals)
unfolding run
run-Holds [] f vals h = (f, refl, h)
run-Holds (op ∷ ops) f vals h =
    let (f', e, h') = apply-Holds op f vals h in
    let (f'', e', h'') = run-Holds ops f' (apply_list op vals) h' in
    (f'', run-cons op ops f f' f'' e e', h'')
  where
    run-cons :
        (op : Op) (ops : List Op) (f f' f'' : Fancy)
        → apply op f ≡ ok f'
        → run ops f' ≡ ok f''
        → run (op ∷ ops) f ≡ ok f''
    run-cons op ops f f' f'' e e' = rw e e'

get_elem?-past : (xs : List ℕ) (p : ℕ) → length xs ≤ p → get_elem? xs p ≡ none
get_elem?-past [] p h = refl
get_elem?-past (x ∷ xs) zero h = absurd (omega arith)
get_elem?-past (x ∷ xs) (suc p) h = get_elem?-past xs p (omega arith)

get_list-past : (idx : ℕ) (vals : List ℕ) → length vals ≤ idx → get_list idx vals ≡ negsuc 0
get_list-past idx vals h =
    ap (λ (o : Option ℕ). elim o as (λ _. ℤ) [ none ↦ negsuc 0 | some v ↦ pos (v % modulus) ])
      (get_elem?-past vals idx h)

get_list-at :
    (idx : ℕ) (vals : List ℕ) (v : ℕ)
    → get_elem? vals idx ≡ some v
    → get_list idx vals ≡ pos (v % modulus)
get_list-at idx vals v at =
    ap (λ (o : Option ℕ). elim o as (λ _. ℤ) [ none ↦ negsuc 0 | some v ↦ pos (v % modulus) ]) at

get_index-Holds :
    (idx : ℕ) (f : Fancy) (vals : List ℕ) → Holds f vals → get_index idx f ≡ ok (get_list idx vals)
unfolding get_index
get_index-Holds idx f vals h = elim (Bool-cases (leb f.n idx)) [
  | inl past ↦ rw past (ap ok (sym (get_list-past idx vals (ground (arith, h.counted)))))
  | inr within ↦
      let (v, at) = get_elem?-some vals idx (ground (arith, h.counted)) in
      rw
        (
          within,
          query-value idx f.root 0 (info f.root).r h.covers (omega arith)
              (ground (arith, h.roomy.1)),
          h.values idx v at,
        )
        (ap ok (sym (get_list-at idx vals v at)))
]

-- A new sequence, after any calls of `append`, `addAll` and `multAll`, has raised no exception, and
-- `getIndex` answers for every index as a plain list does that each call changes at once: the value
-- modulo 1000000007, or -1 past the end.
pub fancy_refines_list :
    (ops : List Op)
    → (f : Fancy) × ((new >>= run ops) ≡ ok f)
      × ((idx : ℕ) → get_index idx f ≡ ok (get_list idx (run_list ops [])))
fancy_refines_list ops =
    let (f, e, h) = new-Holds in
    let (f', e', h') = run-Holds ops f [] h in
    (f', rw e e', λ idx. get_index-Holds idx f' (run_list ops []) h')
