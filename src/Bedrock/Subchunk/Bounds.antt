-- ===== src/Bedrock/Subchunk/Bounds.antt =====
-- Where the blocks that `decode_subchunk_blocks` lists stand, and what their names are.
use code_recipes.Common.{
  ℕ, zero, suc, ◌+◌, ◌*◌, ◌/◌, ◌%◌, ◌≤◌, ◌<◌, ◌≡◌, refl, subst, arith, Bool, true, false, not, ◌||◌,
  ltb, ◌==◌, if◌then◌else◌, List, [], ◌∷◌, length, get_elem?, map, Option, none, some,
}
use code_recipes.Common.Int.{ℤ, pos, ◌+ℤ◌, ◌*ℤ◌}
use code_recipes.Common.Result.{ok, err, ◌>>=◌, or_raise}
use code_recipes.Bedrock.Nbt.{Nbt, Bytes, Run, parse_nbt, index_error}
use code_recipes.Bedrock.Words.{word_count, indices_of}
use code_recipes.Bedrock.Words.Length.{length-indices_of}
use code_recipes.Bedrock.Subchunk.{
  Block, block_at, in_natural, name_of, read_palette, palette_size, range_from, read_words, emit,
  decode_single, decode_packed, blocks_or_none, decode_layer, decode_subchunk_blocks,
}

-- A place in the sub-chunk, and a name that is not natural.
pub record Placed (chunk_x chunk_z sub_y : ℤ) (b : Block) : Type 0 where
  pub lx : ℕ
  pub ly : ℕ
  pub lz : ℕ
  pub in_box : (lx < 16) × (ly < 16) × (lz < 16)
  pub x_at : b.x ≡ chunk_x *ℤ pos 16 +ℤ pos lx
  pub y_at : b.y ≡ sub_y *ℤ pos 16 +ℤ pos ly
  pub z_at : b.z ≡ chunk_z *ℤ pos 16 +ℤ pos lz
  pub unnatural : in_natural b.name ≡ ok false

abbrev pub All : {A : Type 0} → (A → Type 0) → List A → Type 0
All P [] = Unit
All P (x ∷ xs) = P x × All P xs

abbrev pub AllOk : (Block → Type 0) → Run (List Block) → Type 0
AllOk P (ok bs) = All P bs
AllOk P (err e) = Unit

block_at-Placed :
    (cx cz sy : ℤ) (idx : ℕ) (name : Nbt)
    → idx < 4096
    → in_natural name ≡ ok false
    → Placed cx cz sy (block_at cx cz sy idx name)
unfolding block_at
block_at-Placed cx cz sy idx name h e = record {
  lx = idx % 16;
  ly = idx / 256;
  lz = (idx / 16) % 16;
  in_box = (omega arith, omega arith, omega arith);
  x_at = refl;
  y_at = refl;
  z_at = refl;
  unnatural = e;
}

module _ (P : Block → Type 0) (block : ℕ → Nbt → Block)
    (good : (idx : ℕ) (name : Nbt)
      → idx < 4096
      → in_natural name ≡ ok false
      → P (block idx name)) where
  map-All :
      (name : Nbt) (start n : ℕ)
      → start + n ≤ 4096
      → in_natural name ≡ ok false
      → All P (map (λ idx. block idx name) (range_from start n))
  map-All name start zero h e = tt
  map-All name start (suc n) h e =
      (good start name (omega arith) e, map-All name (suc start) n (omega arith) e)

  emit_name :
      (idx : ℕ) (name : Nbt) (natural : Run Bool) (rest : List Block)
      → idx < 4096
      → in_natural name ≡ natural
      → All P rest
      → All P (elim natural [ err e ↦ [] | ok true ↦ rest | ok false ↦ block idx name ∷ rest ])
  emit_name idx name (err x) rest h e r = tt
  emit_name idx name (ok true) rest h e r = r
  emit_name idx name (ok false) rest h e r = (good idx name h e, r)

  emit_entry :
      (idx : ℕ) (entry : Option Nbt) (rest : List Block)
      → idx < 4096
      → All P rest
      → All P (elim entry [
        | none ↦ rest
        | some name ↦ elim (in_natural name) [
          | err e ↦ []
          | ok true ↦ rest
          | ok false ↦ block idx name ∷ rest
        ]
      ])
  emit_entry idx none rest h r = r
  emit_entry idx (some name) rest h r = emit_name idx name (in_natural name) rest h refl r

  emit-All :
      (palette : List Nbt) (idx : ℕ) (indices : List ℕ)
      → idx + length indices ≤ 4096
      → All P (emit block palette idx indices)
  unfolding emit
  emit-All palette idx [] h = tt
  emit-All palette idx (p ∷ ps) h =
      emit_entry idx (get_elem? palette p) (emit block palette (suc idx) ps) (omega arith)
        (emit-All palette (suc idx) ps (omega arith))

  single_entry :
      (name : Nbt) (natural : Run Bool)
      → in_natural name ≡ natural
      → AllOk P
          (natural >>= λ n. ok (if n then [] else map (λ idx. block idx name) (range_from 0 4096)))
  single_entry name (err x) e = tt
  single_entry name (ok true) e = tt
  single_entry name (ok false) e = map-All name 0 4096 (omega arith) e

  single_name :
      (name : Run Nbt)
      → AllOk P (
          name >>= λ n.
          in_natural n >>= λ b. ok (if b then [] else map (λ idx. block idx n) (range_from 0 4096)))
  single_name (err x) = tt
  single_name (ok n) = single_entry n (in_natural n) refl

  size_step :
      (size : Option ℕ) (k : ℕ → Run (List Block))
      → ((n : ℕ) → AllOk P (k n))
      → AllOk P (elim size [ none ↦ ok [] | some n ↦ k n ])
  size_step none k f = tt
  size_step (some n) k f = f n

  decode_single-All : (data_ : Bytes) (offset : ℕ) → AllOk P (decode_single block data_ offset)
  unfolding decode_single
  decode_single-All data_ offset =
      size_step (palette_size data_ offset) _
        (λ size. single_name (name_of (parse_nbt data_ (offset + 4)).0))

  packed_palette :
      (palette : Run (List Nbt × ℕ)) (indices : List ℕ)
      → length indices ≤ 4096
      → AllOk P (palette >>= λ p. ok (emit block p.0 0 indices))
  packed_palette (err x) indices h = tt
  packed_palette (ok p) indices h = emit-All p.0 0 indices (omega arith)

  test_step : (b : Bool) (r : Run (List Block)) → AllOk P r → AllOk P (if b then ok [] else r)
  test_step true r h = tt
  test_step false r h = h

  decode_packed-All :
      (bits : ℕ) (data_ : Bytes) (offset : ℕ) → AllOk P (decode_packed block bits data_ offset)
  unfolding decode_packed
  decode_packed-All bits data_ offset =
      let words_end : ℕ = offset + word_count bits * 4 in
      let indices : List ℕ = indices_of bits (read_words (word_count bits) data_ offset) in
      test_step (ltb (length data_) words_end) _ (
        size_step (palette_size data_ words_end) _ (λ size.
          packed_palette (read_palette size data_ (words_end + 4)) indices
            (length-indices_of bits (read_words (word_count bits) data_ offset))))

  blocks_or_none-All : (r : Run (List Block)) → AllOk P r → All P (blocks_or_none r)
  blocks_or_none-All (ok bs) h = h
  blocks_or_none-All (err e) h = tt

  either-All :
      (b : Bool) (r s : Run (List Block)) → AllOk P r → AllOk P s → AllOk P (if b then r else s)
  either-All true r s h g = h
  either-All false r s h g = g

  wide-All : (b : Bool) (bs : List Block) → All P bs → All P (if b then [] else bs)
  wide-All true bs h = tt
  wide-All false bs h = h

  header-All :
      (data_ : Bytes) (offset : ℕ) (header : Run ℕ)
      → AllOk P (
          header >>= λ h. ok (
            if ltb 16 (h / 2)
            then []
            else blocks_or_none (
                if h / 2 == 0
                then decode_single block data_ (offset + 1)
                else decode_packed block (h / 2) data_ (offset + 1))))
  header-All data_ offset (err x) = tt
  header-All data_ offset (ok h) = wide-All (ltb 16 (h / 2)) _ (
      blocks_or_none-All _ (
        either-All (h / 2 == 0) _ _ (decode_single-All data_ (offset + 1))
          (decode_packed-All (h / 2) data_ (offset + 1))))

  decode_layer-All : (data_ : Bytes) (offset : ℕ) → AllOk P (decode_layer block data_ offset)
  unfolding decode_layer
  decode_layer-All data_ offset =
      header-All data_ offset (or_raise (get_elem? data_ offset) index_error)

decode_subchunk_blocks-AllOk :
    (data_ : Bytes) (chunk_x chunk_z sub_y : ℤ)
    → AllOk (Placed chunk_x chunk_z sub_y) (decode_subchunk_blocks data_ chunk_x chunk_z sub_y)
unfolding decode_subchunk_blocks
decode_subchunk_blocks-AllOk [] cx cz sy = tt
decode_subchunk_blocks-AllOk (version ∷ []) cx cz sy = tt
decode_subchunk_blocks-AllOk (version ∷ n ∷ []) cx cz sy = tt
decode_subchunk_blocks-AllOk (version ∷ n ∷ b ∷ more) cx cz sy =
    test_step (Placed cx cz sy) (block_at cx cz sy) (block_at-Placed cx cz sy)
      (not (version == 8 || version == 9) || n == 0) _
      (decode_layer-All (Placed cx cz sy) (block_at cx cz sy) (block_at-Placed cx cz sy)
        (version ∷ n ∷ b ∷ more) (if version == 9 then 3 else 2))

All-get_elem? :
    (P : Block → Type 0) (bs : List Block) (i : ℕ) (b : Block)
    → All P bs
    → get_elem? bs i ≡ some b
    → P b
All-get_elem? P [] i b h e = ground arith
All-get_elem? P (x ∷ bs) zero b h e = let same : x ≡ b = ground (arith, e) in subst P same h.0
All-get_elem? P (x ∷ bs) (suc i) b h e = All-get_elem? P bs i b h.1 e

All-blocks_or_none :
    (P : Block → Type 0) (r : Run (List Block)) → AllOk P r → All P (blocks_or_none r)
All-blocks_or_none P (ok bs) h = h
All-blocks_or_none P (err e) h = tt

-- Every block that is listed for a sub-chunk, at any place of the list, stands in its box of 16 by 16 by
-- 16, and its name is not in `natural_blocks`.
pub decode_subchunk_blocks-Placed :
    (data_ : Bytes) (chunk_x chunk_z sub_y : ℤ) (i : ℕ) (b : Block)
    → get_elem? (blocks_or_none (decode_subchunk_blocks data_ chunk_x chunk_z sub_y)) i ≡ some b
    → Placed chunk_x chunk_z sub_y b
decode_subchunk_blocks-Placed data_ cx cz sy i b e =
    let blocks = decode_subchunk_blocks data_ cx cz sy in
    All-get_elem? (Placed cx cz sy) (blocks_or_none blocks) i b
      (All-blocks_or_none (Placed cx cz sy) blocks (decode_subchunk_blocks-AllOk data_ cx cz sy)) e
