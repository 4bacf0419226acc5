-- ===== src/Ninjias/Circle.antt =====
-- The circle itself, and the one who is left of it.
use code_recipes.Common.{
  ℕ, zero, suc, ◌+◌, ◌-◌, ◌*◌, ◌/◌, ◌%◌, ◌≤◌, ◌<◌, ◌≡◌, refl, sym, ap, ◌∙◌, arith, ◌==◌, leb,
  if◌then◌else◌, true, false, Bool-cases, inl, inr, ltb, ltb→lt, Option, none, some, List, [], ◌∷◌,
  ◌++◌, length, length-append, get_elem?,
}
use code_recipes.Ninjias.{ninjias}

-- The first kills the second and goes to the end of the line.
unfoldable pub survivor : ℕ → List ℕ → Option ℕ
survivor fuel [] = none
survivor fuel (x ∷ []) = some x
survivor zero (x ∷ y ∷ rest) = none
survivor (suc fuel) (x ∷ y ∷ rest) = survivor fuel (rest ++ x ∷ [])

abbrev pub range_from : ℕ → ℕ → List ℕ
range_from start zero = []
range_from start (suc n) = start ∷ range_from (suc start) n

data IsPower : ℕ → Type 0 where
  one : IsPower 1
  twice : (p : ℕ) → IsPower p → IsPower (2 * p)

get_elem?-before :
    (xs : List ℕ) (x i : ℕ) → i < length xs → get_elem? (xs ++ x ∷ []) i ≡ get_elem? xs i
get_elem?-before [] x i h = ground arith
get_elem?-before (y ∷ xs) x zero h = refl
get_elem?-before (y ∷ xs) x (suc i) h = get_elem?-before xs x i (omega arith)

get_elem?-last : (xs : List ℕ) (x i : ℕ) → i ≡ length xs → get_elem? (xs ++ x ∷ []) i ≡ some x
get_elem?-last [] x zero h = refl
get_elem?-last [] x (suc i) h = ground arith
get_elem?-last (y ∷ xs) x zero h = ground arith
get_elem?-last (y ∷ xs) x (suc i) h = get_elem?-last xs x i (omega arith)

get_elem?-tail :
    (x y : ℕ) (rest : List ℕ) (i j : ℕ)
    → j ≡ suc (suc i)
    → get_elem? (x ∷ y ∷ rest) j ≡ get_elem? rest i
get_elem?-tail x y rest i j e = ap (get_elem? (x ∷ y ∷ rest)) e

survivor-power :
    (fuel p l : ℕ) (xs : List ℕ)
    → IsPower p
    → l < p
    → length xs ≡ p + l
    → length xs ≤ fuel
    → survivor fuel xs ≡ get_elem? xs (2 * l)
unfolding survivor
survivor-power fuel p l [] w h e f = ground arith
survivor-power fuel p l (x ∷ []) w h e f =
    let first : 2 * l ≡ 0 = omega arith in sym (ap (get_elem? (x ∷ [])) first)
survivor-power zero p l (x ∷ y ∷ rest) w h e f = ground arith
survivor-power (suc fuel) p (suc l) (x ∷ y ∷ rest) w h e f =
    survivor-power fuel p l (rest ++ x ∷ []) w (omega arith)
      (omega (arith, length-append rest (x ∷ []))) (omega (arith, length-append rest (x ∷ [])))
    ∙ get_elem?-before rest x (2 * l) (omega arith)
    ∙ sym (get_elem?-tail x y rest (2 * l) (2 * suc l) (omega arith))
survivor-power (suc fuel) _ zero (x ∷ y ∷ rest) one h e f = ground arith
survivor-power (suc fuel) _ zero (x ∷ y ∷ rest) (twice p w) h e f =
    survivor-power fuel p (p - 1) (rest ++ x ∷ []) w (omega arith)
      (omega (arith, length-append rest (x ∷ []))) (omega (arith, length-append rest (x ∷ [])))
    ∙ get_elem?-last rest x (2 * (p - 1)) (omega arith)

ninjias-small : (fuel n : ℕ) → n ≤ 2 → ninjias (suc fuel) n ≡ some 0
unfolding ninjias
ninjias-small fuel n h = let b : leb n 2 ≡ true = ground arith in rw b

ninjias-even :
    (fuel n : ℕ) {r : ℕ}
    → 2 < n
    → n % 2 ≡ 0
    → ninjias fuel (n / 2) ≡ some r
    → ninjias (suc fuel) n ≡ some (2 * r)
unfolding ninjias
ninjias-even fuel n h e g =
    let b : leb n 2 ≡ false = ground arith in
    let c : (n % 2 == 0) ≡ true = ground arith in rw (b, c, g)

ninjias-odd :
    (fuel n : ℕ) {r : ℕ}
    → 2 < n
    → n % 2 ≡ 1
    → ninjias fuel ((n + 1) / 2) ≡ some r
    → ninjias (suc fuel) n ≡ some (if r == 0 then n - 1 else (r - 1) * 2)
unfolding ninjias
ninjias-odd fuel n h e g =
    let b : leb n 2 ≡ false = ground arith in
    let c : (n % 2 == 0) ≡ false = ground arith in rw (b, c, g)

some_of : {i j : ℕ} → i ≡ j → some i ≡ some j
some_of e = ap some e

ninjias-power :
    (fuel p l n : ℕ) → IsPower p → l < p → n ≡ p + l → n ≤ fuel → ninjias fuel n ≡ some (2 * l)
ninjias-power zero p l n w h e f = ground arith
ninjias-power (suc fuel) _ l n one h e f =
    ninjias-small fuel n (omega arith) ∙ some_of (omega arith)
ninjias-power (suc fuel) _ l n (twice p w) h e f = elim (Bool-cases (ltb 2 n)) [
  | inr small ↦ let few : n ≤ 2 = ground arith in ninjias-small fuel n few ∙ some_of (omega arith)
  | inl big ↦ elim (Bool-cases (n % 2 == 0)) [
    | inl even ↦
        let e0 : n % 2 ≡ 0 = ground arith in
        ninjias-even fuel n (ltb→lt 2 n big) e0
          (ninjias-power fuel p (l / 2) (n / 2) w (omega arith) (omega arith) (omega arith))
        ∙ some_of (omega arith)
    | inr odd ↦
        let o1 : n % 2 ≡ 1 = ground arith in
        let more : 2 < n = ltb→lt 2 n big in
        elim (Bool-cases (ltb ((l + 1) / 2) p)) [
          | inl inside ↦
              ninjias-odd fuel n more o1 (
                ninjias-power fuel p ((l + 1) / 2) ((n + 1) / 2) w (ltb→lt ((l + 1) / 2) p inside)
                  (omega arith) (omega arith))
              ∙ some_of (ground arith)
          | inr outside ↦
              let full : p ≤ (l + 1) / 2 = ground arith in
              ninjias-odd fuel n more o1 (
                ninjias-power fuel (2 * p) 0 ((n + 1) / 2) (twice p w) (omega arith) (omega arith)
                  (omega arith))
              ∙ some_of (omega arith)
        ]
  ]
]

-- Every circle is a power of two and fewer more than that.
decompose : (n : ℕ) → (p : ℕ) × (l : ℕ) × IsPower p × (l < p) × (suc n ≡ p + l)
decompose zero = (1, 0, one, omega arith, refl)
decompose (suc n) =
    let (p, l, w, h, e) = decompose n in
    elim (Bool-cases (ltb (suc l) p)) [
      | inl inside ↦ (p, suc l, w, ltb→lt (suc l) p inside, omega arith)
      | inr outside ↦
          let full : p ≤ suc l = ground arith in (2 * p, 0, twice p w, omega arith, omega arith)
    ]

length-range_from : (start n : ℕ) → length (range_from start n) ≡ n
length-range_from start zero = refl
length-range_from start (suc n) = ap suc (length-range_from (suc start) n)

range_from-get : (start n i : ℕ) → i < n → get_elem? (range_from start n) i ≡ some (start + i)
range_from-get start zero i h = ground arith
range_from-get start (suc n) zero h = some_of (omega arith)
range_from-get start (suc n) (suc i) h =
    range_from-get (suc start) n i (omega arith) ∙ some_of (omega arith)

-- For one or more ninjas, `ninjias` answers with the one that the circle of 0 up to `n - 1` leaves, with
-- `n` as fuel for both.
pub ninjias-survivor :
    (n : ℕ)
    → (i : ℕ) × (ninjias (suc n) (suc n) ≡ some i)
      × (survivor (suc n) (range_from 0 (suc n)) ≡ some i)
ninjias-survivor n =
    let (p, l, w, h, e) = decompose n in
    let many : length (range_from 0 (suc n)) ≡ suc n = length-range_from 0 (suc n) in
    (
      2 * l,
      ninjias-power (suc n) p l (suc n) w h e (omega arith),
      survivor-power (suc n) p l (range_from 0 (suc n)) w h (many ∙ e) (omega (arith, many))
          ∙ range_from-get 0 (suc n) (2 * l) (omega arith)
          ∙ some_of (omega arith),
    )
