-- ===== src/Bedrock/Subchunk/Raises.antt =====
-- When `decode_subchunk_blocks` raises an exception.
use code_recipes.Common.{
  ℕ, ◌≡◌, ◌≢◌, ◌↔◌, refl, arith, Bool, true, false, not, ◌||◌, ◌==◌, if◌then◌else◌, List, [], ◌∷◌,
  get_elem?, none, some, Bool-cases, inl, inr, sym, ap, ◌∙◌,
}
use code_recipes.Common.Int.{ℤ}
use code_recipes.Common.Result.{ok, err}
use code_recipes.Bedrock.Nbt.{Nbt, Bytes, Run, Error, index_error}
use code_recipes.Bedrock.Subchunk.{Block, block_at, decode_layer, decode_subchunk_blocks}

-- Version 9 with layers, and nothing after the index of the sub-chunk.
abbrev pub CutShort : Bytes → Type 0
CutShort data_ = (n : ℕ) × (b : ℕ) × (n ≢ 0) × (data_ ≡ 9 ∷ n ∷ b ∷ [])

decode_layer-within :
    (block : ℕ → Nbt → Block) (data_ : Bytes) (offset : ℕ) {h : ℕ} {e : Error}
    → get_elem? data_ offset ≡ some h
    → decode_layer block data_ offset ≢ err e
unfolding decode_layer
decode_layer-within block data_ offset found r = let r' = rw found at r in cc

abbrev raised : Error → Run (List Block)
raised e = err e

err_inj : {d e : Error} → raised d ≡ raised e → d ≡ e
err_inj h = cc

decode_layer-past :
    (block : ℕ → Nbt → Block) (data_ : Bytes) (offset : ℕ)
    → get_elem? data_ offset ≡ none
    → decode_layer block data_ offset ≡ err index_error
unfolding decode_layer
decode_layer-past block data_ offset at = rw at

raises_there :
    (block : ℕ → Nbt → Block) (nine : Bool) (version n b : ℕ) (more : Bytes) (e : Error)
    → decode_layer block (version ∷ n ∷ b ∷ more) (if nine then 3 else 2) ≡ err e
    → (e ≡ index_error) × (nine ≡ true) × (more ≡ [])
raises_there block true version n b [] e h =
    (err_inj (sym h ∙ decode_layer-past block (version ∷ n ∷ b ∷ []) 3 refl), refl, refl)
raises_there block true version n b (c ∷ more) e h =
    absurd (decode_layer-within block (version ∷ n ∷ b ∷ c ∷ more) 3 refl h)
raises_there block false version n b more e h =
    absurd (decode_layer-within block (version ∷ n ∷ b ∷ more) 2 refl h)

raises_only :
    (block : ℕ → Nbt → Block) (version n b : ℕ) (more : Bytes) (e : Error)
    → (if not (version == 8 || version == 9) || n == 0
        then ok []
        else decode_layer block (version ∷ n ∷ b ∷ more) (if version == 9 then 3 else 2))
      ≡ err e
    → (e ≡ index_error) × CutShort (version ∷ n ∷ b ∷ more)
raises_only block version n b more e h =
    elim (Bool-cases (not (version == 8 || version == 9) || n == 0)) [
      | inl skipped ↦ (let h' = rw skipped at h in cc)
      | inr read ↦
          let there = raises_there block (version == 9) version n b more e (rw read at h) in
          let layers : n ≢ 0 = λ q. ground arith in
          let nine : version ≡ 9 = ground (arith, there.1) in
          (there.0, (n, b, layers, rw (nine, there.2)))
    ]

raises_short :
    (block : ℕ → Nbt → Block) (n b : ℕ)
    → n ≢ 0
    → (if n == 0 then ok [] else decode_layer block (9 ∷ n ∷ b ∷ []) 3) ≡ err index_error
raises_short block n b h =
    let some_layers : (n == 0) ≡ false = ground arith in
    rw (some_layers, decode_layer-past block (9 ∷ n ∷ b ∷ []) 3 refl)

raises_forward :
    (data_ : Bytes) (cx cz sy : ℤ) (e : Error)
    → decode_subchunk_blocks data_ cx cz sy ≡ err e
    → (e ≡ index_error) × CutShort data_
unfolding decode_subchunk_blocks
raises_forward [] cx cz sy e h = cc
raises_forward (v ∷ []) cx cz sy e h = cc
raises_forward (v ∷ n ∷ []) cx cz sy e h = cc
raises_forward (v ∷ n ∷ b ∷ more) cx cz sy e h = raises_only (block_at cx cz sy) v n b more e h

raises_back :
    (data_ : Bytes) (cx cz sy : ℤ)
    → CutShort data_
    → decode_subchunk_blocks data_ cx cz sy ≡ err index_error
unfolding decode_subchunk_blocks
raises_back data_ cx cz sy (n, b, layers, e) =
    ap (λ d. decode_subchunk_blocks d cx cz sy) e ∙ raises_short (block_at cx cz sy) n b layers

-- The only exception is the IndexError of a chunk of version 9 with layers that is three bytes long;
-- it is raised for every such chunk.
pub decode_subchunk_blocks-raises :
    (data_ : Bytes) (chunk_x chunk_z sub_y : ℤ) (e : Error)
    → (decode_subchunk_blocks data_ chunk_x chunk_z sub_y ≡ err e)
      ↔ ((e ≡ index_error) × CutShort data_)
decode_subchunk_blocks-raises data_ cx cz sy e =
    (raises_forward data_ cx cz sy e, λ h. raises_back data_ cx cz sy h.1 ∙ ap err (sym h.0))
