-- ===== src/Bedrock/Words/Indices.antt =====
-- Which bits of which word each index is.
use Prim.Native.Nat.{min}
use native.Mathlib.Nat.{div-add-mod', mod-lt, mul-le-mul_right, le_of_mul-le-mul_right}
use code_recipes.Common.{
  ℕ, zero, suc, ◌+◌, ◌-◌, ◌*◌, ◌/◌, ◌%◌, ◌≤◌, ◌<◌, ◌≡◌, refl, arith, ltb, ltb→lt, if◌then◌else◌,
  Bool-cases, inl, inr, length, get_elem?, List, [], ◌∷◌, ◌++◌, none, some, ap, ◌∙◌, sym,
}
use code_recipes.Bedrock.Words.{
  shifts_from, shifts, bits_at, unpack_word, unpack_words, indices_of, blocks_per_word, taken,
}

shifts_from-get :
    (fuel bits start j : ℕ)
    → 1 ≤ bits
    → 32 ≤ start + fuel
    → get_elem? (shifts_from fuel bits start) j
      ≡ (if ltb (start + j * bits) 32 then some (start + j * bits) else none)
unfolding shifts_from
shifts_from-get zero bits start j one enough = ground arith
shifts_from-get (suc fuel) bits start zero one enough = ground arith
shifts_from-get (suc fuel) bits start (suc j) one enough =
    let step : start + bits + j * bits ≡ start + suc j * bits = omega arith in
    ground (arith, shifts_from-get fuel bits (start + bits) j one (omega arith), step)

unpack_word-get :
    (bits word : ℕ) (row : List ℕ) (left j : ℕ)
    → j < left
    → get_elem? (unpack_word bits word row left) j
      ≡ elim (get_elem? row j) [ none ↦ none | some s ↦ some (bits_at bits word s) ]
unfolding unpack_word
unpack_word-get bits word [] left j h = refl
unpack_word-get bits word (s ∷ row) zero j h = ground arith
unpack_word-get bits word (s ∷ row) (suc left) zero h = refl
unpack_word-get bits word (s ∷ row) (suc left) (suc j) h =
    unpack_word-get bits word row left j (omega arith)

length-unpack_word :
    (bits word : ℕ) (row : List ℕ) (left : ℕ)
    → length (unpack_word bits word row left) ≡ min left (length row)
unfolding unpack_word
length-unpack_word bits word [] left = omega arith
length-unpack_word bits word (s ∷ row) zero = omega arith
length-unpack_word bits word (s ∷ row) (suc left) =
    ground (arith, length-unpack_word bits word row left)

shifts-get : (bits j : ℕ) → 1 ≤ bits → j * bits < 32 → get_elem? (shifts bits) j ≡ some (j * bits)
unfolding shifts
shifts-get bits j one h = ground (arith, shifts_from-get 32 bits 0 j one (omega arith))

-- With no more than one further step below 32 at the start, none is left.
length-shifts_from :
    (fuel bits start p : ℕ)
    → 1 ≤ bits
    → 32 ≤ start + fuel
    → 32 ≤ start + p * bits
    → start + p * bits < 32 + bits
    → length (shifts_from fuel bits start) ≡ p
unfolding shifts_from
length-shifts_from zero bits start zero one enough a b = refl
length-shifts_from zero bits start (suc p) one enough a b =
    let step : suc p * bits ≡ bits + p * bits = omega arith in ground (arith, step)
length-shifts_from (suc fuel) bits start zero one enough a b = ground arith
length-shifts_from (suc fuel) bits start (suc p) one enough a b =
    let step : suc p * bits ≡ bits + p * bits = omega arith in
    let rest : length (shifts_from fuel bits (start + bits)) ≡ p =
      length-shifts_from fuel bits (start + bits) p one (omega arith) (omega arith) (omega arith) in
    ground (arith, rest, step)

taken_bounds : (bits : ℕ) → 1 ≤ bits → (32 ≤ taken bits * bits) × (taken bits * bits < 32 + bits)
taken_bounds bits one =
    let whole : (32 + bits - 1) / bits * bits + (32 + bits - 1) % bits ≡ 32 + bits - 1 =
      div-add-mod' (32 + bits - 1) bits in
    let small : (32 + bits - 1) % bits < bits = mod-lt (32 + bits - 1) (omega arith) in
    (omega arith, omega arith)

length-shifts : (bits : ℕ) → 1 ≤ bits → length (shifts bits) ≡ taken bits
unfolding shifts
length-shifts bits one =
    length-shifts_from 32 bits 0 (taken bits) one (omega arith)
      (omega (arith, (taken_bounds bits one).0)) (omega (arith, (taken_bounds bits one).1))

get_elem?-append_left :
    {A : Type 0} (xs ys : List A) (j : ℕ) → j < length xs → get_elem? (xs ++ ys) j ≡ get_elem? xs j
get_elem?-append_left [] ys j h = ground arith
get_elem?-append_left (x ∷ xs) ys zero h = refl
get_elem?-append_left (x ∷ xs) ys (suc j) h = get_elem?-append_left xs ys j (omega arith)

get_elem?-append_right :
    {A : Type 0} (xs ys : List A) (j : ℕ) → get_elem? (xs ++ ys) (length xs + j) ≡ get_elem? ys j
get_elem?-append_right [] ys j = ap (get_elem? ys) (omega arith)
get_elem?-append_right (x ∷ xs) ys j =
    let next : suc (length xs) + j ≡ suc (length xs + j) = omega arith in
    ap (get_elem? (x ∷ (xs ++ ys))) next ∙ get_elem?-append_right xs ys j

some_inj : {A : Type 0} {a b : A} → some a ≡ some b → a ≡ b
some_inj e = cc

unpack_words-cons :
    (bits v : ℕ) (ws : List ℕ) (left : ℕ)
    → unpack_words bits (v ∷ ws) left
      ≡ unpack_word bits v (shifts bits) left
        ++ unpack_words bits ws (left - length (unpack_word bits v (shifts bits) left))
unfolding unpack_words
unpack_words-cons bits v ws left = refl

length-row :
    (bits v left : ℕ)
    → 1 ≤ bits
    → length (unpack_word bits v (shifts bits) left) ≡ min left (taken bits)
length-row bits v left one =
    length-unpack_word bits v (shifts bits) left ∙ ap (min left) (length-shifts bits one)

taken_past : (bits j : ℕ) → 1 ≤ bits → j * bits < 32 → j < taken bits
taken_past bits j one h = elim (Bool-cases (ltb j (taken bits))) [
  | inl e ↦ ltb→lt j (taken bits) e
  | inr e ↦
      let small : taken bits ≤ j = ground arith in
      let grown : taken bits * bits ≤ j * bits = mul-le-mul_right bits small in
      omega (arith, grown, (taken_bounds bits one).0)
]

unpack_words-get :
    (bits : ℕ) (words : List ℕ) (left q j w : ℕ)
    → 1 ≤ bits
    → j * bits < 32
    → get_elem? words q ≡ some w
    → q * taken bits + j < left
    → get_elem? (unpack_words bits words left) (q * taken bits + j)
      ≡ some (bits_at bits w (j * bits))
unpack_words-get bits [] left q j w one h e room = ground arith
unpack_words-get bits (v ∷ ws) left zero j w one h e room =
    let row : List ℕ = unpack_word bits v (shifts bits) left in
    let there : j < length row =
      omega (arith, length-row bits v left one, taken_past bits j one h) in
    ap (λ r. get_elem? r (0 * taken bits + j)) (unpack_words-cons bits v ws left)
    ∙ ap (get_elem? (row ++ unpack_words bits ws (left - length row))) (omega arith)
    ∙ get_elem?-append_left row (unpack_words bits ws (left - length row)) j there
    ∙ unpack_word-get bits v (shifts bits) left j (omega arith)
    ∙ (rw (shifts-get bits j one h, some_inj e))
unpack_words-get bits (v ∷ ws) left (suc q) j w one h e room =
    let row : List ℕ = unpack_word bits v (shifts bits) left in
    let full : length row ≡ taken bits = length-row bits v left one ∙ omega arith in
    ap (λ r. get_elem? r (suc q * taken bits + j)) (unpack_words-cons bits v ws left)
    ∙ ap (get_elem? (row ++ unpack_words bits ws (left - length row))) (omega (arith, full))
    ∙ get_elem?-append_right row (unpack_words bits ws (left - length row)) (q * taken bits + j)
    ∙ unpack_words-get bits ws (left - length row) q j w one h e (omega (arith, full))

-- Where the loop finds the indices, for any number of bits: entry `q * ⌈32 / bits⌉ + j` is taken from
-- word `q`, at the `j`-th shift.
indices_of-get :
    (bits : ℕ) (words : List ℕ) (q j w : ℕ)
    → 1 ≤ bits
    → j * bits < 32
    → get_elem? words q ≡ some w
    → q * taken bits + j < 4096
    → get_elem? (indices_of bits words) (q * taken bits + j) ≡ some (bits_at bits w (j * bits))
unfolding indices_of
indices_of-get bits words q j w one h e room = unpack_words-get bits words 4096 q j w one h e room

some_of : (k bits : ℕ) → k * bits ≡ 32 → 0 < k
some_of zero bits e = omega arith
some_of (suc k) bits e = omega arith

same_count :
    (t k bits : ℕ) → 1 ≤ bits → 32 ≤ t * bits → t * bits < 32 + bits → k * bits ≡ 32 → t ≡ k
same_count t k bits one low high e =
    let at_least : k ≤ t = le_of_mul-le-mul_right (omega arith) one in
    let more : suc k * bits ≡ bits + k * bits = omega arith in
    elim (Bool-cases (ltb k t)) [
      | inl f ↦
          let wide : suc k * bits ≤ t * bits = mul-le-mul_right bits (ltb→lt k t f) in omega arith
      | inr f ↦ ground arith
    ]

-- When `bits` divides 32, the index of block `n` is the one stored for it: word
-- `n / blocks_per_word bits`, at place `n % blocks_per_word bits` from its low end.
pub indices_of-stored :
    (bits : ℕ) (words : List ℕ) (n w : ℕ)
    → 1 ≤ bits
    → blocks_per_word bits * bits ≡ 32
    → n < 4096
    → get_elem? words (n / blocks_per_word bits) ≡ some w
    → get_elem? (indices_of bits words) n ≡ some (bits_at bits w (n % blocks_per_word bits * bits))
indices_of-stored bits words n w one divides room e =
    let k : ℕ = blocks_per_word bits in
    let same : taken bits ≡ k =
      same_count (taken bits) k bits one (taken_bounds bits one).0 (taken_bounds bits one).1
        divides in
    let whole : n / k * k + n % k ≡ n = div-add-mod' n k in
    let positive : 0 < k = some_of k bits divides in
    let inside : n % k < k = mod-lt n positive in
    let wide : suc (n % k) * bits ≤ k * bits = mul-le-mul_right bits inside in
    let more : suc (n % k) * bits ≡ bits + n % k * bits = omega arith in
    let place : n / k * taken bits + n % k ≡ n = ap (λ t. n / k * t + n % k) same ∙ whole in
    ap (get_elem? (indices_of bits words)) (sym place)
    ∙ indices_of-get bits words (n / k) (n % k) w one (omega arith) e (omega arith)
