-- ===== src/StreamMedian/Moves.antt =====
-- What the two heaps hold, and that a number put in or moved keeps it.
use code_recipes.Common.{
  ℕ, suc, ◌+◌, ◌≡◌, refl, ap, subst, Bool, true, false, List, [], ◌∷◌, arith, if◌then◌else◌, length,
}
use code_recipes.Common.Int.{ℤ, ltb_ℤ, neg}
use code_recipes.Common.Sort.{IsSorted, NoneBelow, insert_sorted, insert_sorted-IsSorted}
use code_recipes.SortedArrays.Counts.{passes, count}
use code_recipes.StreamMedian.{sentinel}

-- How many of the negated numbers are less than a number, or not greater.
abbrev pub neg_count : Bool → ℤ → List ℤ → ℕ
neg_count s v [] = 0
neg_count s v (m ∷ ms) = if passes s v (neg m) then suc (neg_count s v ms) else neg_count s v ms

-- All of the second are at least `v`.
abbrev pub AtLeast : ℤ → List ℤ → Type 0
AtLeast v [] = Unit
AtLeast v (n ∷ ns) = (ltb_ℤ n v ≡ false) × AtLeast v ns

abbrev pub Apart : List ℤ → List ℤ → Type 0
Apart [] ns = Unit
Apart (m ∷ ms) ns = AtLeast (neg m) ns × Apart ms ns

pub record Holds (xs max_heap min_heap : List ℤ) : Type 0 where
  pub max_sorted : IsSorted ltb_ℤ max_heap
  pub min_sorted : IsSorted ltb_ℤ min_heap
  pub apart : Apart max_heap min_heap
  pub counts :
      (s : Bool) (v : ℤ)
      → neg_count s v max_heap + count s v min_heap ≡ count s v xs + count s v (sentinel ∷ [])
  pub sizes : length max_heap + length min_heap ≡ length xs + 1

pub count-insert :
    (s : Bool) (v x : ℤ) (xs : List ℤ) → count s v (insert_sorted ltb_ℤ x xs) ≡ count s v (x ∷ xs)
unfolding insert_sorted
count-insert s v x [] = refl
count-insert s v x (y ∷ ys) = ground (arith, count-insert s v x ys)

pub neg_count-insert :
    (s : Bool) (v x : ℤ) (xs : List ℤ)
    → neg_count s v (insert_sorted ltb_ℤ x xs) ≡ neg_count s v (x ∷ xs)
unfolding insert_sorted
neg_count-insert s v x [] = refl
neg_count-insert s v x (y ∷ ys) = ground (arith, neg_count-insert s v x ys)

pub length-insert : (x : ℤ) (xs : List ℤ) → length (insert_sorted ltb_ℤ x xs) ≡ suc (length xs)
unfolding insert_sorted
length-insert x [] = refl
length-insert x (y ∷ ys) = ground (arith, length-insert x ys)

pub AtLeast-insert :
    (v x : ℤ) (xs : List ℤ)
    → ltb_ℤ x v ≡ false
    → AtLeast v xs
    → AtLeast v (insert_sorted ltb_ℤ x xs)
unfolding insert_sorted
AtLeast-insert v x [] h a = (h, tt)
AtLeast-insert v x (y ∷ ys) h a = ground (arith, AtLeast-insert v x ys)

-- A number that is at most all of the second joins the first.
pub Apart-insert_left :
    (x : ℤ) (ms ns : List ℤ)
    → AtLeast (neg x) ns
    → Apart ms ns
    → Apart (insert_sorted ltb_ℤ x ms) ns
unfolding insert_sorted
Apart-insert_left x [] ns h a = (h, tt)
Apart-insert_left x (y ∷ ys) ns h a = ground (arith, Apart-insert_left x ys ns)

-- All of the first are at most `x`.
abbrev pub AtMost : ℤ → List ℤ → Type 0
AtMost x [] = Unit
AtMost x (m ∷ ms) = (ltb_ℤ x (neg m) ≡ false) × AtMost x ms

pub Apart-insert_right :
    (x : ℤ) (ms ns : List ℤ) → AtMost x ms → Apart ms ns → Apart ms (insert_sorted ltb_ℤ x ns)
Apart-insert_right x [] ns h a = tt
Apart-insert_right x (m ∷ ms) ns h a =
    (AtLeast-insert (neg m) x ns h.0 a.0, Apart-insert_right x ms ns h.1 a.1)

pub NoneBelow-AtMost : (m : ℤ) (ms : List ℤ) → NoneBelow ltb_ℤ m ms → AtMost (neg m) ms
NoneBelow-AtMost m [] h = tt
NoneBelow-AtMost m (x ∷ ms) h = (ground arith, NoneBelow-AtMost m ms h.1)

pub NoneBelow-AtLeast : (n : ℤ) (ns : List ℤ) → NoneBelow ltb_ℤ n ns → AtLeast (neg (neg n)) ns
NoneBelow-AtLeast n [] h = tt
NoneBelow-AtLeast n (x ∷ ns) h = (ground arith, NoneBelow-AtLeast n ns h.1)

pub Apart-tail : (n : ℤ) (ms ns : List ℤ) → Apart ms (n ∷ ns) → Apart ms ns × AtMost n ms
Apart-tail n [] ns a = (tt, tt)
Apart-tail n (m ∷ ms) ns a =
    (let rest = Apart-tail n ms ns a.1 in ((a.0.1, rest.0), (a.0.0, rest.1)))

pub push-IsSorted :
    (x : ℤ) (ys : List ℤ) → IsSorted ltb_ℤ ys → IsSorted ltb_ℤ (insert_sorted ltb_ℤ x ys)
push-IsSorted x ys h =
    insert_sorted-IsSorted ltb_ℤ (λ a b g. ground arith) (λ a b c g k. ground arith) x ys h

pub neg-neg : (n : ℤ) → neg (neg n) ≡ n
neg-neg n = ground arith

pub move_right :
    (xs ms ns : List ℤ) (m : ℤ)
    → Holds xs (m ∷ ms) ns
    → Holds xs ms (insert_sorted ltb_ℤ (neg m) ns)
move_right xs ms ns m h = record {
  max_sorted = h.max_sorted.1;
  min_sorted = push-IsSorted (neg m) ns h.min_sorted;
  apart = Apart-insert_right (neg m) ms ns (NoneBelow-AtMost m ms h.max_sorted.0) h.apart.1;
  counts = λ s v. ground (arith, h.counts s v, count-insert s v (neg m) ns);
  sizes = omega (arith, h.sizes, length-insert (neg m) ns);
}

pub move_left :
    (xs ms ns : List ℤ) (n : ℤ)
    → Holds xs ms (n ∷ ns)
    → Holds xs (insert_sorted ltb_ℤ (neg n) ms) ns
move_left xs ms ns n h = record {
  max_sorted = push-IsSorted (neg n) ms h.max_sorted;
  min_sorted = h.min_sorted.1;
  apart =
      Apart-insert_left (neg n) ms ns (NoneBelow-AtLeast n ns h.min_sorted.0)
        (Apart-tail n ms ns h.apart).0;
  counts = λ s v.
      (let same = ap (passes s v) (neg-neg n) in
        ground (arith, h.counts s v, neg_count-insert s v (neg n) ms));
  sizes = omega (arith, h.sizes, length-insert (neg n) ms);
}

pub AtLeast-down : (u v : ℤ) (ns : List ℤ) → ltb_ℤ v u ≡ false → AtLeast v ns → AtLeast u ns
AtLeast-down u v [] h a = tt
AtLeast-down u v (n ∷ ns) h a = (ground arith, AtLeast-down u v ns h a.1)

pub AtMost-up : (u v : ℤ) (ms : List ℤ) → ltb_ℤ v u ≡ false → AtMost u ms → AtMost v ms
AtMost-up u v [] h a = tt
AtMost-up u v (m ∷ ms) h a = (ground arith, AtMost-up u v ms h a.1)

pub place_left :
    (xs ms ns : List ℤ) (n num : ℤ)
    → Holds xs ms (n ∷ ns)
    → ltb_ℤ num n ≡ true
    → Holds (num ∷ xs) (insert_sorted ltb_ℤ (neg num) ms) (n ∷ ns)
place_left xs ms ns n num h l =
    let same = neg-neg num in
    let above : AtLeast (neg (neg num)) (n ∷ ns) =
      AtLeast-down (neg (neg num)) n (n ∷ ns) (ground arith) (
        ground arith,
        subst (λ z. AtLeast z ns) (neg-neg n) (NoneBelow-AtLeast n ns h.min_sorted.0),
      ) in
    record {
      max_sorted = push-IsSorted (neg num) ms h.max_sorted;
      min_sorted = h.min_sorted;
      apart = Apart-insert_left (neg num) ms (n ∷ ns) above h.apart;
      counts = λ s v.
          (let part = ap (passes s v) same in
            ground (arith, h.counts s v, neg_count-insert s v (neg num) ms));
      sizes = omega (arith, h.sizes, length-insert (neg num) ms);
    }

pub place_right :
    (xs ms ns : List ℤ) (n num : ℤ)
    → Holds xs ms (n ∷ ns)
    → ltb_ℤ num n ≡ false
    → Holds (num ∷ xs) ms (insert_sorted ltb_ℤ num (n ∷ ns))
place_right xs ms ns n num h l = record {
  max_sorted = h.max_sorted;
  min_sorted = push-IsSorted num (n ∷ ns) h.min_sorted;
  apart =
      Apart-insert_right num ms (n ∷ ns) (AtMost-up n num ms l (Apart-tail n ms ns h.apart).1)
        h.apart;
  counts = λ s v. ground (arith, h.counts s v, count-insert s v num (n ∷ ns));
  sizes = omega (arith, h.sizes, length-insert num (n ∷ ns));
}
