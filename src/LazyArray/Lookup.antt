-- ===== src/LazyArray/Lookup.antt =====
-- `indexOf` against the array with every map applied at once.
use code_recipes.Common.{
  ℕ, zero, suc, ◌+◌, ◌<◌, ◌≡◌, ◌≢◌, refl, sym, ap, ◌∙◌, arith, if◌then◌else◌, Bool-cases, inl, inr,
  ◌⊎◌, true, false, List, [], ◌∷◌, Option, none, some, get_elem?,
}
use code_recipes.Common
use code_recipes.Common.Int.{ℤ, pos, negsuc}
use code_recipes.Common.Eq.{int_beq, int_beq_iff}
use code_recipes.LazyArray.{LazyArray, of_values, map, index_loop, index_of}

-- The arrays that a chain of maps gives, and the values that it stands for.
abbrev pub map_all : List (ℤ → ℤ) → LazyArray → LazyArray
map_all [] a = a
map_all (f ∷ fs) a = map_all fs (map f a)

abbrev pub mapped : List (ℤ → ℤ) → List ℤ → List ℤ
mapped [] xs = xs
mapped (f ∷ fs) xs = mapped fs (Common.map f xs)

-- The first place of a value: it stands there and nowhere before, or nowhere and the place is -1.
pub data FirstAt (target : ℤ) (xs : List ℤ) : ℤ → Type 0 where
  found :
      (i : ℕ)
      → get_elem? xs i ≡ some target
      → ((j : ℕ) → j < i → get_elem? xs j ≢ some target)
      → FirstAt target xs (pos i)
  missing : ((j : ℕ) → get_elem? xs j ≢ some target) → FirstAt target xs (negsuc 0)

index_loop-map :
    (f g : ℤ → ℤ) (target : ℤ) (idx : ℕ) (xs : List ℤ)
    → index_loop (λ i. f (g i)) target idx xs ≡ index_loop f target idx (Common.map g xs)
unfolding index_loop
index_loop-map f g target idx [] = refl
index_loop-map f g target idx (x ∷ xs) = rw (index_loop-map f g target (idx + 1) xs)

index_of-map_all :
    (fs : List (ℤ → ℤ)) (g : ℤ → ℤ) (target : ℤ) (xs : List ℤ)
    → index_of target (map_all fs (record { values = xs; fn = g }))
      ≡ index_loop (λ x. x) target 0 (mapped fs (Common.map g xs))
unfolding index_of map
index_of-map_all [] g target xs = index_loop-map (λ x. x) g target 0 xs
index_of-map_all (f ∷ fs) g target xs =
    index_of-map_all fs (λ i. f (g i)) target xs
    ∙ ap (λ ys. index_loop (λ x. x) target 0 (mapped fs ys)) (map-map f g xs)
  where
    map-map :
        (f g : ℤ → ℤ) (xs : List ℤ) → Common.map (λ i. f (g i)) xs ≡ Common.map f (Common.map g xs)
    map-map f g [] = refl
    map-map f g (x ∷ xs) = ap (λ ys. f (g x) ∷ ys) (map-map f g xs)

map-id : (xs : List ℤ) → Common.map (λ x. x) xs ≡ xs
map-id [] = refl
map-id (x ∷ xs) = ap (λ ys. x ∷ ys) (map-id xs)

abbrev Found : ℤ → ℕ → List ℤ → Type 0
Found target idx xs =
    (i : ℕ) × (get_elem? xs i ≡ some target)
    × ((j : ℕ) → j < i → get_elem? xs j ≢ some target)
    × (index_loop (λ x. x) target idx xs ≡ pos (idx + i))

abbrev Missing : ℤ → ℕ → List ℤ → Type 0
Missing target idx xs =
    ((j : ℕ) → get_elem? xs j ≢ some target) × (index_loop (λ x. x) target idx xs ≡ negsuc 0)

none_before :
    (target x : ℤ) (xs : List ℤ) (i : ℕ)
    → int_beq x target ≡ false
    → ((j : ℕ) → j < i → get_elem? xs j ≢ some target)
    → (j : ℕ) → j < suc i
    → get_elem? (x ∷ xs) j ≢ some target
none_before target x xs i other rest zero lt h = ground (arith, int_beq_iff x target)
none_before target x xs i other rest (suc j) lt h = rest j (omega arith) h

none_at :
    (target x : ℤ) (xs : List ℤ)
    → int_beq x target ≡ false
    → ((j : ℕ) → get_elem? xs j ≢ some target)
    → (j : ℕ) → get_elem? (x ∷ xs) j ≢ some target
none_at target x xs other rest zero h = ground (arith, int_beq_iff x target)
none_at target x xs other rest (suc j) h = rest j h

first : (target : ℤ) (idx : ℕ) (xs : List ℤ) → Found target idx xs ⊎ Missing target idx xs
unfolding index_loop
first target idx [] = inr (λ j h. cc, refl)
first target idx (x ∷ xs) = elim (Bool-cases (int_beq x target)) [
  | inl same ↦ inl (
    0,
    ap some ((int_beq_iff x target).0 same),
    λ j lt h. absurd (omega arith),
    rw same (ap pos (omega arith)),
  )
  | inr other ↦ elim (first target (idx + 1) xs) [
    | inl (i, at, before, e) ↦
        inl (suc i, at, none_before target x xs i other before, rw other (e ∙ ap pos (omega arith)))
    | inr (absent, e) ↦ inr (none_at target x xs other absent, rw other e)
  ]
]

at_start : (i : ℕ) {k : ℤ} → k ≡ pos (0 + i) → k ≡ pos i
at_start i h = h ∙ ap pos (omega arith)

-- After any maps, `indexOf` gives the first index at which the target stands in the list that has
-- all the maps applied, and -1 if it stands at none.
pub index_of-FirstAt :
    (fs : List (ℤ → ℤ)) (xs : List ℤ) (target : ℤ)
    → FirstAt target (mapped fs xs) (index_of target (map_all fs (of_values xs)))
index_of-FirstAt fs xs target =
    let same : index_of target (map_all fs (of_values xs))
        ≡ index_loop (λ x. x) target 0 (mapped fs xs) =
      index_of-map_all fs (λ x. x) target xs
      ∙ ap (λ ys. index_loop (λ x. x) target 0 (mapped fs ys)) (map-id xs) in
    rw same
      (elim (first target 0 (mapped fs xs))
        as (λ _. FirstAt target (mapped fs xs) (index_loop (λ x. x) target 0 (mapped fs xs))) [
          | inl (i, at, before, e) ↦ rw (at_start i e) (FirstAt.found i at before)
          | inr (absent, e) ↦ rw e (FirstAt.missing absent)
        ])
