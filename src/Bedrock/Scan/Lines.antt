-- ===== src/Bedrock/Scan/Lines.antt =====
-- The lines that `scan_world` prints for the records of a database, and how many of each kind.
use code_recipes.Common.{ℕ, ◌+◌, if◌then◌else◌, List, [], ◌∷◌, ◌++◌, map, Option, none, some}
use code_recipes.Common.Eq.{Str, str_eq}
use code_recipes.Common.Sort.{elem}
use code_recipes.Bedrock.Natural.{natural_entities}
use code_recipes.Bedrock.Nbt.{Nbt, Bytes}
use code_recipes.Bedrock.Subchunk.{decode_subchunk_blocks, blocks_or_none}
use code_recipes.Bedrock.Scan.{
  Entity, decode_entity, Kind, subchunk, actor, other, kind_of, Line, block_line, entity_line,
}

-- The lines printed for one entity, for one record, and for all of them in order.
abbrev pub entity_lines : Option Entity → List Line
entity_lines none = []
entity_lines (some e) = if elem e.eid natural_entities then [] else entity_line e ∷ []

abbrev pub record_lines : Kind → Bytes → List Line
record_lines (subchunk cx cz sub_y) val =
    map block_line (blocks_or_none (decode_subchunk_blocks val cx cz sub_y))
record_lines actor val = entity_lines (decode_entity val)
record_lines other val = []

abbrev pub lines_of : List (Bytes × Bytes) → List Line
lines_of [] = []
lines_of ((key, val) ∷ more) = record_lines (kind_of key) val ++ lines_of more

-- The names of the blocks and those of the entities that the lines are for.
abbrev pub blocks_in : List Line → List Nbt
blocks_in [] = []
blocks_in (block_line b ∷ ls) = b.name ∷ blocks_in ls
blocks_in (entity_line e ∷ ls) = blocks_in ls

abbrev pub entities_in : List Line → List Str
entities_in [] = []
entities_in (block_line b ∷ ls) = entities_in ls
entities_in (entity_line e ∷ ls) = e.eid ∷ entities_in ls

abbrev pub subchunk_one : Kind → ℕ
subchunk_one (subchunk cx cz sub_y) = 1
subchunk_one actor = 0
subchunk_one other = 0

abbrev pub actor_one : Kind → ℕ
actor_one (subchunk cx cz sub_y) = 0
actor_one actor = 1
actor_one other = 0

abbrev pub subchunks_in : List (Bytes × Bytes) → ℕ
subchunks_in [] = 0
subchunks_in ((key, val) ∷ more) = subchunk_one (kind_of key) + subchunks_in more

abbrev pub actors_in : List (Bytes × Bytes) → ℕ
actors_in [] = 0
actors_in ((key, val) ∷ more) = actor_one (kind_of key) + actors_in more
