-- ===== src/Bedrock/Program/Prints.antt =====
-- What the program prints for a database that opens.
use code_recipes.Common.{ℕ, ◌≡◌, Bool, List, ◌∷◌, ◌++◌}
use code_recipes.Common.Eq.{Str, str_beq}
use code_recipes.Bedrock.Nbt.{Nbt, Bytes}
use code_recipes.Bedrock.Scan.{Scan}
use code_recipes.Bedrock.Scan.Lines.{lines_of, blocks_in, entities_in, subchunks_in, actors_in}
use code_recipes.Bedrock.Scan.Tally.{tally}
use code_recipes.Bedrock.Report.Ranks.{Ranks, summary_text}
use code_recipes.Bedrock.Program.{Formats, log_texts, opening, header}

module _ (w : Formats) (same : Nbt → Nbt → Bool) where
  -- The output for the records `rs`: the path, the heading, the lines of the records in their order, and
  -- a summary with how many of the records are sub-chunks and actors, how many lines and how many
  -- different names there are for blocks and for entities, and two tables of the names with the number of
  -- the lines for each, from the highest to the lowest.
  pub record Prints (rs : List (Bytes × Bytes)) (db_path : Str) (out : List Str) : Type 0 where
    pub block_rows : List (Nbt × ℕ)
    pub entity_rows : List (Str × ℕ)
    pub blocks_ranked : Ranks (tally same (blocks_in (lines_of rs))) block_rows
    pub entities_ranked : Ranks (tally str_beq (entities_in (lines_of rs))) entity_rows
    pub out_is :
        out
        ≡ (opening w db_path ∷ (header w ++ log_texts w (lines_of rs)))
          ++ summary_text w.commas w.commas_6 same w.str_of
              (subchunks_in rs)
              (actors_in rs)
              (blocks_in (lines_of rs))
              (entities_in (lines_of rs))
              block_rows
              entity_rows
