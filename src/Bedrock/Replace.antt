-- ===== src/Bedrock/Replace.antt =====
-- `bytes.decode("utf-8", errors="replace")`: each longest start of a character that does not go on
-- becomes U+FFFD.
use code_recipes.Common.{
  ℕ, zero, suc, ◌≡◌, arith, Bool, ◌&&◌, not, leb, ◌==◌, if◌then◌else◌, none, some, List, [], ◌∷◌,
  length, drop,
}
use code_recipes.Common.Eq.{Str}
use code_recipes.Common.Maybe.{>>=-eq-some}
use code_recipes.KvStore.Codec.Utf8.{decode_char, decode_loop, decode}

abbrev pub within : ℕ → ℕ → ℕ → Bool
within lo hi b = leb lo b && leb b hi

-- `x` may follow the first byte `b`.
abbrev pub may_follow : ℕ → ℕ → Bool
may_follow b x =
    if b == 0xe0
    then within 0xa0 0xbf x
    else if b == 0xed
    then within 0x80 0x9f x
    else if b == 0xf0
    then within 0x90 0xbf x
    else if b == 0xf4
    then within 0x80 0x8f x
    else within 0x80 0xbf x && within 0xc2 0xf4 b

-- The length of the start of a character that does not go on.
unfoldable pub bad_bytes : ℕ → List ℕ → ℕ
bad_bytes b [] = 1
bad_bytes b (x ∷ []) = if may_follow b x then 2 else 1
bad_bytes b (x ∷ y ∷ r) =
    if not (may_follow b x) then 1 else if within 0x80 0xbf y && leb 0xf0 b then 3 else 2

-- With the bytes left as fuel.
unfoldable pub replace_loop : ℕ → List ℕ → Str
unfolding decode_char bad_bytes
replace_loop fuel [] = []
replace_loop zero (b ∷ r) = []
replace_loop (suc fuel) (b ∷ r) = elim (decode_char b r) [
  | some (c, rest) ↦ c ∷ replace_loop fuel rest
  | none ↦ 0xfffd ∷ replace_loop fuel (drop (bad_bytes b r) (b ∷ r))
]

unfoldable pub decode_replace : List ℕ → Str
unfolding replace_loop
decode_replace bs = replace_loop (length bs) bs

replace_loop-step :
    (fuel b c : ℕ) (r rest : List ℕ)
    → decode_char b r ≡ some (c, rest)
    → replace_loop (suc fuel) (b ∷ r) ≡ c ∷ replace_loop fuel rest
unfolding replace_loop
replace_loop-step fuel b c r rest e = rw (e, replace_loop)

replace_loop-decode_loop :
    (fuel : ℕ) (bs : List ℕ) {s : Str} → decode_loop fuel bs ≡ some s → replace_loop fuel bs ≡ s
unfolding decode_loop replace_loop
replace_loop-decode_loop zero [] h = ground arith
replace_loop-decode_loop (suc fuel) [] h = ground arith
replace_loop-decode_loop zero (b ∷ r) h = cc
replace_loop-decode_loop (suc fuel) (b ∷ r) h =
    let ((c, rest), first, h') = >>=-eq-some (decode_char b r) _ h in
    let (s, others, whole) = >>=-eq-some (decode_loop fuel rest) _ h' in
    rw (replace_loop-step fuel b c r rest first, replace_loop-decode_loop fuel rest others)
      (ground (arith, whole))

-- A text that is decoded without replacing is decoded alike.
pub decode_replace-decode : (bs : List ℕ) {s : Str} → decode bs ≡ some s → decode_replace bs ≡ s
unfolding decode decode_replace
decode_replace-decode bs h = replace_loop-decode_loop (length bs) bs h
