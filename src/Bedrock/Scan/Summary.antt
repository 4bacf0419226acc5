-- ===== src/Bedrock/Scan/Summary.antt =====
-- What `scan_world` prints, and the counts that its summary is printed from.
use code_recipes.Common.{◌≡◌, arith, Bool, List, length, ◌∙◌}
use code_recipes.Common.Eq.{str_eq, str_beq}
use code_recipes.Common.Result.{ok}
use code_recipes.Bedrock.Nbt.{Nbt, Bytes}
use code_recipes.Bedrock.Scan.{Scan, started, scan_records}
use code_recipes.Bedrock.Scan.Lines.{lines_of, blocks_in, entities_in, subchunks_in, actors_in}
use code_recipes.Bedrock.Scan.Tally.{IsEquality, str_beq-IsEquality, tally, bump_all-eq-tally}
use code_recipes.Bedrock.Scan.Adds.{scan_records-Adds}

module _ (same : Nbt → Nbt → Bool) where
  -- What a scan that raised nothing has printed and counted: the lines of the records in their order;
  -- each name with the number of the lines for it, in the order of their first lines; and the records,
  -- the sub-chunks and the actors among them.
  pub record Tallied (rs : List (Bytes × Bytes)) (s : Scan) : Type 0 where
    pub log_is : s.log ≡ lines_of rs
    pub blocks_is : s.block_counts ≡ tally same (blocks_in (lines_of rs))
    pub entities_is : s.entity_counts ≡ tally str_beq (entities_in (lines_of rs))
    pub subs_is : s.subchunks_scanned ≡ subchunks_in rs
    pub acts_is : s.entities_scanned ≡ actors_in rs
    pub kvs_is : s.kv_count ≡ length rs

  -- A scan from the start that raises nothing prints the lines of the records in their order, and
  -- tallies the names in them.
  pub scan_records-Tallied :
      IsEquality same
      → (rs : List (Bytes × Bytes)) {s : Scan} → scan_records same rs started ≡ ok s
      → Tallied rs s
  scan_records-Tallied eq rs {s = s} h =
      let added = scan_records-Adds same rs started h in
      record {
        log_is = added.log_is;
        blocks_is = added.blocks_is ∙ bump_all-eq-tally same eq (blocks_in (lines_of rs));
        entities_is =
            added.entities_is
            ∙ bump_all-eq-tally str_beq str_beq-IsEquality (entities_in (lines_of rs));
        subs_is = added.subs_is ∙ omega arith;
        acts_is = added.acts_is ∙ omega arith;
        kvs_is = added.kvs_is ∙ omega arith;
      }
