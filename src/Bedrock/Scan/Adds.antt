-- ===== src/Bedrock/Scan/Adds.antt =====
-- What each part of the loop of `scan_world` adds to the log and to the counts.
use code_recipes.Common.{
  ◌+◌, ◌≡◌, refl, arith, Bool, if◌then◌else◌, List, [], ◌∷◌, ◌++◌, length, map, Option, none, some,
  sym, ap, ◌∙◌, subst, Bool-cases, inl, inr,
}
use code_recipes.Common.Eq.{str_eq, str_beq}
use code_recipes.Common.Sort.{elem}
use code_recipes.Common.Result.{ok, err, ◌>>=◌, >>=-eq-ok}
use code_recipes.Bedrock.Natural.{natural_entities}
use code_recipes.Bedrock.Nbt.{Nbt, Bytes, Run}
use code_recipes.Bedrock.Subchunk.{Block, decode_subchunk_blocks, blocks_or_none}
use code_recipes.Bedrock.Scan.{
  Entity, decode_entity, Kind, subchunk, actor, other, kind_of, block_line, entity_line, bump, Scan,
  add_block, add_blocks, as_float, add_entity, scan_record, scan_records,
}
use code_recipes.Bedrock.Scan.Lines.{
  entity_lines, record_lines, lines_of, subchunk_one, actor_one, subchunks_in, actors_in,
}
use code_recipes.Bedrock.Scan.Counts.{
  Adds, Adds-nothing, Adds-then, ok_inj, subst2, recount, one_subchunk, one_actor, one_key,
}

module _ (same : Nbt → Nbt → Bool) where
  add_block-Adds :
      (b : Block) (s : Scan) → Adds same (block_line b ∷ []) 0 0 0 s (add_block same b s)
  unfolding add_block
  add_block-Adds b s = record {
    log_is = refl;
    blocks_is = refl;
    entities_is = refl;
    subs_is = omega arith;
    acts_is = omega arith;
    kvs_is = omega arith;
  }

  add_blocks-Adds :
      (bs : List Block) (s : Scan) → Adds same (map block_line bs) 0 0 0 s (add_blocks same bs s)
  unfolding add_blocks
  add_blocks-Adds [] s = Adds-nothing s
  add_blocks-Adds (b ∷ bs) s =
      Adds-then (add_block-Adds b s) (add_blocks-Adds bs (add_block same b s))

  -- One entity more in the log and in the counts.
  entity_added :
      (e : Entity) (s : Scan)
      → Adds same (entity_line e ∷ []) 0 0 0 s (record s {
        log = s.log ++ entity_line e ∷ [];
        entity_counts = bump str_beq e.eid s.entity_counts;
      })
  entity_added e s = record {
    log_is = refl;
    blocks_is = refl;
    entities_is = refl;
    subs_is = omega arith;
    acts_is = omega arith;
    kvs_is = omega arith;
  }

  three_floats :
      (x y z : Run (Unit {0})) {s t : Scan} → (x >>= λ a. y >>= λ b. z >>= λ c. ok s) ≡ ok t → s ≡ t
  three_floats (err x) y z h = cc
  three_floats (ok x) (err y) z h = cc
  three_floats (ok x) (ok y) (err z) h = cc
  three_floats (ok x) (ok y) (ok z) h = cc

  add_entity-Adds :
      (e : Option Entity) (s : Scan) {t : Scan}
      → add_entity same e s ≡ ok t
      → Adds same (entity_lines e) 0 0 0 s t
  unfolding add_entity
  add_entity-Adds none s {t = t} h = subst (Adds same [] 0 0 0 s) (ok_inj h) (Adds-nothing s)
  add_entity-Adds (some e) s {t = t} h = elim (Bool-cases (elem e.eid natural_entities)) [
    | inl n ↦
        subst2 s t (sym (ap (λ b. if b then [] else entity_line e ∷ []) n)) (ok_inj (rw n at h))
          (Adds-nothing s)
    | inr n ↦
        subst2 s t (sym (ap (λ b. if b then [] else entity_line e ∷ []) n))
          (three_floats (as_float e.x) (as_float e.y) (as_float e.z) (rw n at h)) (entity_added e s)
  ]

  blocks_result :
      (r : Run (List Block)) (s : Scan) {t : Scan}
      → (r >>= λ bs. ok (add_blocks same bs s)) ≡ ok t
      → Adds same (map block_line (blocks_or_none r)) 0 0 0 s t
  blocks_result (err e) s h = cc
  blocks_result (ok bs) s {t = t} h =
      subst (Adds same (map block_line bs) 0 0 0 s) (ok_inj h) (add_blocks-Adds bs s)

  scan_record-Adds :
      (k : Kind) (val : Bytes) (s : Scan) {t : Scan}
      → scan_record same k val s ≡ ok t
      → Adds same (record_lines k val) (subchunk_one k) (actor_one k) 0 s t
  unfolding scan_record
  scan_record-Adds (subchunk cx cz sub_y) val s h = Adds-then (one_subchunk s) (
      blocks_result (decode_subchunk_blocks val cx cz sub_y)
        (record s { subchunks_scanned = s.subchunks_scanned + 1 }) h)
  scan_record-Adds actor val s h = Adds-then (one_actor s) (
      add_entity-Adds (decode_entity val) (record s { entities_scanned = s.entities_scanned + 1 })
        h)
  scan_record-Adds other val s h = subst (Adds same [] 0 0 0 s) (ok_inj h) (Adds-nothing s)

  scan_records-cons :
      (key val : Bytes) (rs : List (Bytes × Bytes)) (s : Scan)
      → scan_records same ((key, val) ∷ rs) s ≡ (
          scan_record same (kind_of key) val (record s { kv_count = s.kv_count + 1 })
          >>= scan_records same rs)
  unfolding scan_records
  scan_records-cons key val rs s = refl

  scan_records-nil : (s : Scan) → scan_records same [] s ≡ ok s
  unfolding scan_records
  scan_records-nil s = refl

  pub scan_records-Adds :
      (rs : List (Bytes × Bytes)) (s : Scan) {t : Scan}
      → scan_records same rs s ≡ ok t
      → Adds same (lines_of rs) (subchunks_in rs) (actors_in rs) (length rs) s t
  scan_records-Adds [] s {t = t} h =
      subst (Adds same [] 0 0 0 s) (ok_inj (sym (scan_records-nil s) ∙ h)) (Adds-nothing s)
  scan_records-Adds ((key, val) ∷ rs) s h =
      let start : Scan = record s { kv_count = s.kv_count + 1 } in
      let went =
        >>=-eq-ok (scan_record same (kind_of key) val start) (scan_records same rs)
          (sym (scan_records-cons key val rs s) ∙ h) in
      recount (omega arith) (omega arith) (omega arith) (
        Adds-then (one_key s) (
          Adds-then (scan_record-Adds (kind_of key) val start went.1)
            (scan_records-Adds rs went.0 went.2)))
