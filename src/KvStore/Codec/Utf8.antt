-- ===== src/KvStore/Codec/Utf8.antt =====
-- UTF-8 as Python's `str.encode` and `bytes.decode` use it: surrogates, overlong forms and code
-- points past 0x10ffff are refused.
use code_recipes.Common.{
  ℕ, zero, suc, ◌+◌, ◌-◌, ◌*◌, ◌/◌, ◌%◌, ◌≤◌, ◌≡◌, Bool, ◌&&◌, not, Option, none, some, List, [],
  ◌∷◌, ◌++◌, arith, ltb, leb, if◌then◌else◌, length, length-append, Option-cases, inl, inr, ◌≤◌,
  ◌≢◌,
}
use code_recipes.Common.Eq.{Str}
use code_recipes.Common.Maybe.{◌>>=◌, >>=-eq-some}

is_surrogate : ℕ → Bool
is_surrogate c = leb 0xd800 c && ltb c 0xe000

unfoldable pub encode_char : ℕ → Option (List ℕ)
unfolding is_surrogate
encode_char c =
    if ltb c 0x80
    then some (c ∷ [])
    else if ltb c 0x800
    then some ((0xc0 + c / 64) ∷ (0x80 + c % 64) ∷ [])
    else if is_surrogate c
    then none
    else if ltb c 0x10000
    then some ((0xe0 + c / 4096) ∷ (0x80 + c / 64 % 64) ∷ (0x80 + c % 64) ∷ [])
    else if ltb c 0x110000
    then some
        ((0xf0 + c / 262144) ∷ (0x80 + c / 4096 % 64) ∷ (0x80 + c / 64 % 64) ∷ (0x80 + c % 64) ∷ [])
    else none

-- `s.encode("utf-8")`
unfoldable pub encode : Str → Option (List ℕ)
unfolding encode_char
encode [] = some []
encode (c ∷ s) = do bs ← encode_char c; rest ← encode s; some (bs ++ rest)

is_cont : ℕ → Bool
is_cont b = leb 0x80 b && ltb b 0xc0

two : ℕ → List ℕ → Option (ℕ × List ℕ)
unfolding is_cont
two b [] = none
two b (x ∷ r) = if is_cont x then some ((b - 0xc0) * 64 + (x - 0x80), r) else none

three : ℕ → List ℕ → Option (ℕ × List ℕ)
unfolding is_cont is_surrogate
three b (x ∷ y ∷ r) =
    let c = (b - 0xe0) * 4096 + (x - 0x80) * 64 + (y - 0x80) in
    if is_cont x && is_cont y && leb 0x800 c && not (is_surrogate c) then some (c, r) else none
three b r = none

four : ℕ → List ℕ → Option (ℕ × List ℕ)
unfolding is_cont
four b (x ∷ y ∷ z ∷ r) =
    let c = (b - 0xf0) * 262144 + (x - 0x80) * 4096 + (y - 0x80) * 64 + (z - 0x80) in
    if is_cont x && is_cont y && is_cont z && leb 0x10000 c && ltb c 0x110000
    then some (c, r)
    else none
four b r = none

unfoldable pub decode_char : ℕ → List ℕ → Option (ℕ × List ℕ)
unfolding two three four
decode_char b r =
    if ltb b 0x80
    then some (b, r)
    else if ltb b 0xc2
    then none
    else if ltb b 0xe0
    then two b r
    else if ltb b 0xf0
    then three b r
    else if ltb b 0xf5
    then four b r
    else none

-- One character takes a byte at least, so as many rounds as bytes are enough.
unfoldable pub decode_loop : ℕ → List ℕ → Option Str
unfolding decode_char
decode_loop fuel [] = some []
decode_loop zero (b ∷ r) = none
decode_loop (suc fuel) (b ∷ r) = do
  (c, rest) ← decode_char b r
  s ← decode_loop fuel rest
  some (c ∷ s)

-- `bs.decode("utf-8")`
unfoldable pub decode : List ℕ → Option Str
unfolding decode_loop
decode bs = decode_loop (length bs) bs

decode_char-encode_char :
    (c : ℕ) (rest : List ℕ) {bs : List ℕ}
    → encode_char c ≡ some bs
    → (b : ℕ) × (r : List ℕ) × (bs ≡ b ∷ r) × (decode_char b (r ++ rest) ≡ some (c, rest))
unfolding encode_char decode_char
decode_char-encode_char c rest h = ground arith

-- One round, after a character that decodes.
decode_loop-step :
    (fuel b : ℕ) (r rest : List ℕ) (c : ℕ) (s : Str)
    → length (b ∷ (r ++ rest)) ≤ fuel
    → decode_char b (r ++ rest) ≡ some (c, rest)
    → ((n : ℕ) → length rest ≤ n → decode_loop n rest ≡ some s)
    → decode_loop fuel (b ∷ (r ++ rest)) ≡ some (c ∷ s)
unfolding decode_loop
decode_loop-step zero b r rest c s f step ih = absurd (omega arith)
decode_loop-step (suc n) b r rest c s f step ih =
    rw (step, ih n (omega (arith, length-append r rest)))

decode_loop-encode :
    (s : Str) (fuel : ℕ) {bs : List ℕ}
    → encode s ≡ some bs
    → length bs ≤ fuel
    → decode_loop fuel bs ≡ some s
unfolding encode decode_loop
decode_loop-encode [] fuel h f = ground arith
decode_loop-encode (c ∷ s) fuel {bs} h f =
    let (cs, first, h') = >>=-eq-some (encode_char c) _ h in
    let (rest, others, whole) = >>=-eq-some (encode s) _ h' in
    let (b, r, shape, step) = decode_char-encode_char c rest first in
    let all : bs ≡ b ∷ (r ++ rest) = cc in
    rw all
      (decode_loop-step fuel b r rest c s (rw all at f) step (λ n. decode_loop-encode s n others))

-- Decoding gives back every text that can be encoded.
pub decode-encode : (s : Str) {bs : List ℕ} → encode s ≡ some bs → decode bs ≡ some s
unfolding decode
decode-encode s {bs} h = decode_loop-encode s (length bs) h (omega arith)

pub encode_char-total :
    (c : ℕ) → encode_char c ≢ none → (b : List ℕ) × (encode_char c ≡ some b) × (length b ≤ 4)
unfolding encode_char
encode_char-total c h = elim (Option-cases (encode_char c)) [
  | inl e ↦ absurd (h e)
  | inr (b, e) ↦ (b, e, ground arith)
]
