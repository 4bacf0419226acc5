-- ===== src/Bedrock/Words.antt =====
-- The indices of `decode_subchunk_blocks`, unpacked from 32-bit words.
pub mod Length
pub mod Indices
use Prim.Native.Nat.{min}
use native.Mathlib.Nat.{div-add-mod', mod-lt, mul-le-mul_right, le_of_mul-le-mul_right}
use code_recipes.Common.{
  ℕ, zero, suc, ◌+◌, ◌-◌, ◌*◌, ◌/◌, ◌%◌, ◌^◌, ◌≤◌, ◌<◌, ◌≡◌, refl, arith, ltb, leb, ltb→lt,
  if◌then◌else◌, true, false, Bool, Bool-cases, inl, inr, length, get_elem?, take, List, [], ◌∷◌,
  ◌++◌, map, Option, none, some, ap, ◌∙◌, sym, length-map, length-append, length-take,
}

-- `range(start, 32, bits)`, with fuel.
unfoldable pub shifts_from : ℕ → ℕ → ℕ → List ℕ
shifts_from zero bits start = []
shifts_from (suc fuel) bits start =
    let rest = shifts_from fuel bits (start + bits) in if ltb start 32 then start ∷ rest else []

unfoldable pub shifts : ℕ → List ℕ
unfolding shifts_from
shifts bits = shifts_from 32 bits 0

-- `(word >> shift) & mask`
abbrev pub bits_at : ℕ → ℕ → ℕ → ℕ
bits_at bits word shift = (word / 2 ^ shift) % 2 ^ bits

-- The loop over the shifts of one word, that ends when `left` indices are there.
unfoldable pub unpack_word : ℕ → ℕ → List ℕ → ℕ → List ℕ
unpack_word bits word [] left = []
unpack_word bits word (shift ∷ more) zero = []
unpack_word bits word (shift ∷ more) (suc left) =
    bits_at bits word shift ∷ unpack_word bits word more left

-- The loop over the words.
unfoldable pub unpack_words : ℕ → List ℕ → ℕ → List ℕ
unfolding unpack_word shifts
unpack_words bits [] left = []
unpack_words bits (word ∷ more) left =
    let row = unpack_word bits word (shifts bits) left in
    row ++ unpack_words bits more (left - length row)

unfoldable pub indices_of : ℕ → List ℕ → List ℕ
unfolding unpack_words
indices_of bits words = unpack_words bits words 4096

-- `blocks_per_word` and `word_count`
unfoldable pub blocks_per_word : ℕ → ℕ
blocks_per_word bits = 32 / bits

unfoldable pub word_count : ℕ → ℕ
unfolding blocks_per_word
word_count bits = (4096 + blocks_per_word bits - 1) / blocks_per_word bits

-- The indices that the loop takes from a word: 32 over `bits`, rounded up.
abbrev pub taken : ℕ → ℕ
taken bits = (32 + bits - 1) / bits
