-- ===== src/Bedrock/Words/Length.antt =====
-- The loop over the words never takes more indices than a sub-chunk has blocks.
use code_recipes.Common.{ℕ, zero, suc, ◌-◌, ◌≤◌, arith, length, List, [], ◌∷◌, ◌++◌, length-append}
use code_recipes.Bedrock.Words.{shifts, unpack_word, unpack_words, indices_of}

length-unpack_word_le :
    (bits word : ℕ) (row : List ℕ) (left : ℕ) → length (unpack_word bits word row left) ≤ left
unfolding unpack_word
length-unpack_word_le bits word [] left = omega arith
length-unpack_word_le bits word (s ∷ row) zero = omega arith
length-unpack_word_le bits word (s ∷ row) (suc left) =
    omega (arith, length-unpack_word_le bits word row left)

add_rows :
    (row rest : List ℕ) (left : ℕ)
    → length row ≤ left
    → length rest ≤ left - length row
    → length (row ++ rest) ≤ left
add_rows row rest left h g = omega (arith, length-append row rest)

length-unpack_words :
    (bits : ℕ) (words : List ℕ) (left : ℕ) → length (unpack_words bits words left) ≤ left
unfolding unpack_words
length-unpack_words bits [] left = omega arith
length-unpack_words bits (w ∷ ws) left =
    add_rows (unpack_word bits w (shifts bits) left) _ left
      (length-unpack_word_le bits w (shifts bits) left)
      (length-unpack_words bits ws (left - length (unpack_word bits w (shifts bits) left)))

pub length-indices_of : (bits : ℕ) (words : List ℕ) → length (indices_of bits words) ≤ 4096
unfolding indices_of
length-indices_of bits words = length-unpack_words bits words 4096
