-- ===== src/SortedArrays/Counts.antt =====
-- How many entries of a sorted list are less than a number, or not greater.
use code_recipes.Common.{
  ℕ, zero, suc, ◌+◌, ◌≤◌, ◌≡◌, refl, Bool, true, false, List, [], ◌∷◌, ◌++◌, arith, if◌then◌else◌,
  length, take, drop, get_elem?, some,
}
use code_recipes.Common.Int.{ℤ, ltb_ℤ, leb_ℤ}
use code_recipes.Common.Sort.{IsSorted, NoneBelow}

-- Both counts at once: `strict` leaves the number itself out.
abbrev pub passes : Bool → ℤ → ℤ → Bool
passes true v x = ltb_ℤ x v
passes false v x = leb_ℤ x v

abbrev pub count : Bool → ℤ → List ℤ → ℕ
count strict v [] = 0
count strict v (x ∷ xs) = if passes strict v x then suc (count strict v xs) else count strict v xs

pub count-append :
    (s : Bool) (v : ℤ) (xs ys : List ℤ) → count s v (xs ++ ys) ≡ count s v xs + count s v ys
count-append s v [] ys = omega arith
count-append s v (x ∷ xs) ys = ground (arith, count-append s v xs ys)

pub count-split :
    (s : Bool) (v : ℤ) (n : ℕ) (xs : List ℤ)
    → count s v xs ≡ count s v (take n xs) + count s v (drop n xs)
count-split s v zero xs = omega arith
count-split s v (suc n) [] = refl
count-split s v (suc n) (x ∷ xs) = ground (arith, count-split s v n xs)

pub count-le : (s : Bool) (v : ℤ) (xs : List ℤ) → count s v xs ≤ length xs
count-le s v [] = omega arith
count-le s v (x ∷ xs) = ground (arith, count-le s v xs)

pub length-take_le : (n : ℕ) (xs : List ℤ) → length (take n xs) ≤ n
length-take_le zero xs = omega arith
length-take_le (suc n) [] = omega arith
length-take_le (suc n) (x ∷ xs) = omega (arith, length-take_le n xs)

passes-down : (s : Bool) (v x y : ℤ) → ltb_ℤ y x ≡ false → passes s v y ≡ true → passes s v x ≡ true
passes-down true v x y h p = ground arith
passes-down false v x y h p = ground arith

NoneBelow-get :
    (x : ℤ) (xs : List ℤ) (m : ℕ) {u : ℤ}
    → NoneBelow ltb_ℤ x xs
    → get_elem? xs m ≡ some u
    → ltb_ℤ u x ≡ false
NoneBelow-get x [] m h q = cc
NoneBelow-get x (y ∷ ys) zero h q = ground arith
NoneBelow-get x (y ∷ ys) (suc m) h q = NoneBelow-get x ys m h.1 q

-- Up to an entry that passes, all pass.
pub count-take :
    (s : Bool) (v : ℤ) (xs : List ℤ) (m : ℕ) {u : ℤ}
    → IsSorted ltb_ℤ xs
    → get_elem? xs m ≡ some u
    → passes s v u ≡ true
    → count s v (take (suc m) xs) ≡ suc m
count-take s v [] m h q p = cc
count-take s v (x ∷ xs) zero h q p = ground arith
count-take s v (x ∷ xs) (suc m) {u = u} h q p =
    ground (arith, count-take s v xs m h.1 q p, passes-down s v x u (NoneBelow-get x xs m h.0 q))

count-above :
    (s : Bool) (v x : ℤ) (xs : List ℤ)
    → NoneBelow ltb_ℤ x xs
    → passes s v x ≡ false
    → count s v xs ≡ 0
count-above s v x [] h p = refl
count-above s v x (y ∷ ys) h p = ground (arith, count-above s v x ys h.1 p, passes-down s v x y h.0)

-- From an entry on that does not pass, none passes.
pub count-drop :
    (s : Bool) (v : ℤ) (xs : List ℤ) (m : ℕ) {u : ℤ}
    → IsSorted ltb_ℤ xs
    → get_elem? xs m ≡ some u
    → passes s v u ≡ false
    → count s v (drop m xs) ≡ 0
count-drop s v [] m h q p = cc
count-drop s v (x ∷ xs) zero h q p = ground (arith, count-above s v x xs h.0)
count-drop s v (x ∷ xs) (suc m) h q p = count-drop s v xs m h.1 q p

take-NoneBelow :
    (n : ℕ) (x : ℤ) (xs : List ℤ) → NoneBelow ltb_ℤ x xs → NoneBelow ltb_ℤ x (take n xs)
take-NoneBelow zero x xs h = tt
take-NoneBelow (suc n) x [] h = tt
take-NoneBelow (suc n) x (y ∷ ys) h = (h.0, take-NoneBelow n x ys h.1)

pub take-IsSorted : (n : ℕ) (xs : List ℤ) → IsSorted ltb_ℤ xs → IsSorted ltb_ℤ (take n xs)
take-IsSorted zero xs h = tt
take-IsSorted (suc n) [] h = tt
take-IsSorted (suc n) (x ∷ xs) h = (take-NoneBelow n x xs h.0, take-IsSorted n xs h.1)

pub drop-IsSorted : (n : ℕ) (xs : List ℤ) → IsSorted ltb_ℤ xs → IsSorted ltb_ℤ (drop n xs)
drop-IsSorted zero xs h = h
drop-IsSorted (suc n) [] h = tt
drop-IsSorted (suc n) (x ∷ xs) h = drop-IsSorted n xs h.1

pub count-take_below :
    (s : Bool) (v : ℤ) (xs : List ℤ) (m : ℕ) {u : ℤ}
    → IsSorted ltb_ℤ xs
    → get_elem? xs m ≡ some u
    → passes s v u ≡ true
    → count s v (take m xs) ≡ m
count-take_below s v xs zero h q p = refl
count-take_below s v [] (suc m) h q p = cc
count-take_below s v (x ∷ xs) (suc m) {u = u} h q p =
    ground
      (arith, count-take_below s v xs m h.1 q p, passes-down s v x u (NoneBelow-get x xs m h.0 q))

pub count-drop_next :
    (s : Bool) (v : ℤ) (xs : List ℤ) (m : ℕ) {u : ℤ}
    → IsSorted ltb_ℤ xs
    → get_elem? xs m ≡ some u
    → passes s v u ≡ false
    → count s v (drop (suc m) xs) ≡ 0
count-drop_next s v [] m h q p = cc
count-drop_next s v (x ∷ xs) zero h q p = ground (arith, count-above s v x xs h.0)
count-drop_next s v (x ∷ xs) (suc m) h q p = count-drop_next s v xs m h.1 q p
