-- ===== src/Bedrock/Subchunk.antt =====
-- `decode_subchunk_blocks`: the blocks of a 16 by 16 by 16 sub-chunk that no generator places. The
-- blocks it yields are a list; an exception inside the `try` ends the list.
pub mod Bounds
pub mod Raises
use code_recipes.Common.{
  ℕ, zero, suc, ◌+◌, ◌-◌, ◌*◌, ◌/◌, ◌%◌, ◌^◌, Bool, true, false, not, ◌||◌, ltb, ◌==◌,
  if◌then◌else◌, List, [], ◌∷◌, length, get_elem?, map, Option, none, some,
}
use code_recipes.Common.Int.{ℤ, pos, pos_part, ltb_ℤ, ◌+ℤ◌, ◌*ℤ◌}
use code_recipes.Common.Eq.{Str, str_beq, str_eq}
use code_recipes.Common.Sort.{elem}
use code_recipes.Common.Result.{Result, ok, err, ◌>>=◌, or_raise}
use code_recipes.KvStore.Codec.Word.{le_value}
use code_recipes.Common.Text.{codes}
use code_recipes.Bedrock.Natural.{natural_blocks}
use code_recipes.Bedrock.Nbt.{
  Nbt, nothing, number, float32, float64, byte_array, text, items, compound, end, item, none_left,
  field, Fields, Bytes, Run, slice, to_signed, parse_nbt, index_error, type_error, attribute_error,
}
use code_recipes.Bedrock.Words.{word_count, indices_of}

pub record Block : Type 0 where
  pub x : ℤ
  pub y : ℤ
  pub z : ℤ
  pub name : Nbt

-- Python's test of a value.
abbrev pub is_falsy : Nbt → Bool
is_falsy nothing = true
is_falsy (number i) = not (ltb_ℤ i (pos 0) || ltb_ℤ (pos 0) i)
is_falsy (float32 v) = v % 2 ^ 31 == 0
is_falsy (float64 v) = v % 2 ^ 63 == 0
is_falsy (byte_array bs) = length bs == 0
is_falsy (text s) = length s == 0
is_falsy (items end) = true
is_falsy (items (item v vs)) = false
is_falsy (compound none_left) = true
is_falsy (compound (field k v d)) = false

-- `d.get(k, or_else)`
abbrev pub get_field : Str → Nbt → Fields → Nbt
get_field k or_else none_left = or_else
get_field k or_else (field j v d) = if str_beq j k then v else get_field k or_else d

air : Nbt
air = text (codes "minecraft:air")

abbrev get_name : Nbt → Run Nbt
get_name (compound d) = ok (get_field (codes "name") air d)
get_name other = err attribute_error

-- `nbt.get('name', 'minecraft:air') if nbt else 'minecraft:air'`
unfoldable pub name_of : Nbt → Run Nbt
unfolding air
name_of nbt = if is_falsy nbt then ok air else get_name nbt

-- `block_name in NATURAL_BLOCKS`; a list or a dict has no hash.
unfoldable pub in_natural : Nbt → Run Bool
unfolding elem natural_blocks
in_natural (text s) = ok (elem s natural_blocks)
in_natural (items vs) = err type_error
in_natural (compound d) = err type_error
in_natural other = ok false

-- Block `idx` of the sub-chunk.
unfoldable pub block_at : ℤ → ℤ → ℤ → ℕ → Nbt → Block
block_at chunk_x chunk_z sub_y idx name = record {
  x = chunk_x *ℤ pos 16 +ℤ pos (idx % 16);
  y = sub_y *ℤ pos 16 +ℤ pos (idx / 256);
  z = chunk_z *ℤ pos 16 +ℤ pos ((idx / 16) % 16);
  name = name;
}

-- `range(start, start + n)`
abbrev pub range_from : ℕ → ℕ → List ℕ
range_from start zero = []
range_from start (suc n) = start ∷ range_from (suc start) n

-- The loop over the palette.
unfoldable pub read_palette : ℕ → Bytes → ℕ → Run (List Nbt × ℕ)
unfolding name_of parse_nbt
read_palette zero data_ offset = ok ([], offset)
read_palette (suc n) data_ offset =
    let entry = parse_nbt data_ offset in
    name_of entry.0 >>= λ name. read_palette n data_ entry.1 >>= λ rest. ok (name ∷ rest.0, rest.1)

-- The words from `offset` on.
abbrev pub read_words : ℕ → Bytes → ℕ → List ℕ
read_words zero data_ offset = []
read_words (suc n) data_ offset = le_value (slice data_ offset 4) ∷ read_words n data_ (offset + 4)

-- The loop that yields, from block `idx` on.
unfoldable pub emit : (ℕ → Nbt → Block) → List Nbt → ℕ → List ℕ → List Block
unfolding in_natural
emit block palette idx [] = []
emit block palette idx (pal_idx ∷ more) =
    let rest = emit block palette (suc idx) more in
    elim (get_elem? palette pal_idx) [
      | none ↦ rest
      | some name ↦ elim (in_natural name) [
        | err e ↦ []
        | ok true ↦ rest
        | ok false ↦ block idx name ∷ rest
      ]
    ]

-- The palette's size, where it is one: `palette_size < 1 or palette_size > 4096` returns.
abbrev pub palette_size : Bytes → ℕ → Option ℕ
palette_size data_ offset =
    if ltb (length data_) (offset + 4)
    then none
    else (let size = to_signed 32 (le_value (slice data_ offset 4)) in
        if ltb_ℤ size (pos 1) || ltb_ℤ (pos 4096) size then none else some (pos_part size))

-- `bits_per_block == 0`: one entry for every block
unfoldable pub decode_single : (ℕ → Nbt → Block) → Bytes → ℕ → Run (List Block)
unfolding name_of parse_nbt in_natural
decode_single block data_ offset = elim (palette_size data_ offset) [
  | none ↦ ok []
  | some size ↦ name_of (parse_nbt data_ (offset + 4)).0 >>= λ name. in_natural name >>= λ natural.
      ok (if natural then [] else map (λ idx. block idx name) (range_from 0 4096))
]

unfoldable pub decode_packed : (ℕ → Nbt → Block) → ℕ → Bytes → ℕ → Run (List Block)
unfolding read_palette emit indices_of word_count
decode_packed block bits data_ offset =
    let words_end = offset + word_count bits * 4 in
    if ltb (length data_) words_end then ok [] else elim (palette_size data_ words_end) [
      | none ↦ ok []
      | some size ↦ read_palette size data_ (words_end + 4) >>= λ palette.
          ok (emit block palette.0 0 (indices_of bits (read_words (word_count bits) data_ offset)))
    ]

-- `except Exception: return`
abbrev pub blocks_or_none : Run (List Block) → List Block
blocks_or_none (ok blocks) = blocks
blocks_or_none (err e) = []

-- `data[offset]` stands outside the `try`.
unfoldable pub decode_layer : (ℕ → Nbt → Block) → Bytes → ℕ → Run (List Block)
unfolding decode_single decode_packed
decode_layer block data_ offset = or_raise (get_elem? data_ offset) index_error >>= λ header.
    let bits = header / 2 in
    ok (
      if ltb 16 bits
      then []
      else blocks_or_none (
          if bits == 0
          then decode_single block data_ (offset + 1)
          else decode_packed block bits data_ (offset + 1)))

unfoldable pub decode_subchunk_blocks : Bytes → ℤ → ℤ → ℤ → Run (List Block)
unfolding decode_layer block_at
decode_subchunk_blocks [] chunk_x chunk_z sub_y = ok []
decode_subchunk_blocks (version ∷ []) chunk_x chunk_z sub_y = ok []
decode_subchunk_blocks (version ∷ num_layers ∷ []) chunk_x chunk_z sub_y = ok []
decode_subchunk_blocks (version ∷ num_layers ∷ b ∷ more) chunk_x chunk_z sub_y =
    if not (version == 8 || version == 9) || num_layers == 0
    then ok []
    else decode_layer (block_at chunk_x chunk_z sub_y) (version ∷ num_layers ∷ b ∷ more)
        (if version == 9 then 3 else 2)
