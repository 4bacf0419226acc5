-- ===== src/Bedrock/Tests.antt =====
-- A record of an actor, a sub-chunk of one block, and the theorems at them.
use code_recipes.Common.{
  ℕ, ◌*◌, ◌/◌, ◌%◌, ◌≡◌, ◌≢◌, ◌↔◌, refl, arith, List, [], ◌∷◌, ◌++◌, get_elem?, some, none, Option,
  Bool,
}
use code_recipes.Common.Int.{pos, negsuc, ◌+ℤ◌, ◌*ℤ◌}
use code_recipes.Common.Eq.{Str, str_beq}
use code_recipes.Common.Result.{ok, err}
use code_recipes.Bedrock.Words.Indices.{indices_of-stored}
use code_recipes.KvStore.Codec.Word.{le_value}
use code_recipes.KvStore.Codec.Utf8.{decode}
use code_recipes.Bedrock.Replace.{decode_replace, decode_replace-decode}
use code_recipes.Common.Text.{codes}
use code_recipes.Bedrock.Nbt.{Nbt, text, Bytes, float32, out_of_fuel, index_error, parse_root}
use code_recipes.Bedrock.Nbt.Ends.{parse_root-ends}
use code_recipes.Bedrock.Words.{indices_of, bits_at, blocks_per_word}
use code_recipes.Bedrock.Subchunk.{Block, blocks_or_none, decode_subchunk_blocks}
use code_recipes.Bedrock.Subchunk.Bounds.{Placed, decode_subchunk_blocks-Placed}
use code_recipes.Bedrock.Subchunk.Raises.{CutShort, decode_subchunk_blocks-raises}
use code_recipes.Bedrock.Scan.{Scan, Line, entity_line, scan_records, started, add_blocks}
use code_recipes.Bedrock.Report.{print_summary}
use code_recipes.Bedrock.Program.{Formats, opening, header, log_texts}
use code_recipes.Bedrock.Program.Prints.{Prints}
use code_recipes.Bedrock.Lock.{Files, open_db_readonly, open_db_readonly-restores}

-- {id: "abc", Pos: [0.0, 0.0, 0.0]}
abbrev actor_value : Bytes
actor_value =
    10 ∷ 0 ∷ 0 ∷ 8 ∷ 2 ∷ 0 ∷ 105 ∷ 100 ∷ 3 ∷ 0 ∷ 97 ∷ 98 ∷ 99 ∷ 9 ∷ 3 ∷ 0 ∷ 80 ∷ 111 ∷ 115 ∷ 5 ∷ 3
    ∷ 0 ∷ 0 ∷ 0 ∷ 0 ∷ 0 ∷ 0 ∷ 0 ∷ 0 ∷ 0 ∷ 0 ∷ 0 ∷ 0 ∷ 0 ∷ 0 ∷ 0 ∷ 0 ∷ []

-- One entry, {name: "abc"}, for all blocks
abbrev chunk : Bytes
chunk =
    8 ∷ 1 ∷ 0 ∷ 1 ∷ 0 ∷ 0 ∷ 0 ∷ 10 ∷ 0 ∷ 0 ∷ 8 ∷ 4 ∷ 0 ∷ 110 ∷ 97 ∷ 109 ∷ 101 ∷ 3 ∷ 0 ∷ 97 ∷ 98 ∷ 99
    ∷ 0 ∷ []

abbrev block_300 : Block
block_300 = record { x = pos 44; y = negsuc 62; z = negsuc 13; name = text (codes "abc") }

listed :
    get_elem? (blocks_or_none (decode_subchunk_blocks chunk (pos 2) (negsuc 0) (negsuc 3))) 300
    ≡ some block_300
unfolding decode_subchunk_blocks le_value decode_replace ◌+ℤ◌ ◌*ℤ◌
listed = refl

decode_subchunk_blocks-Placed_example : Placed (pos 2) (negsuc 0) (negsuc 3) block_300
decode_subchunk_blocks-Placed_example =
    decode_subchunk_blocks-Placed chunk (pos 2) (negsuc 0) (negsuc 3) 300 block_300 listed

-- {id: "z", Pos: [0.0, 0.0, 0.0]}
abbrev other_value : Bytes
other_value =
    10 ∷ 0 ∷ 0 ∷ 8 ∷ 2 ∷ 0 ∷ 105 ∷ 100 ∷ 1 ∷ 0 ∷ 122 ∷ 9 ∷ 3 ∷ 0 ∷ 80 ∷ 111 ∷ 115 ∷ 5 ∷ 3 ∷ 0 ∷ 0
    ∷ 0 ∷ 0 ∷ 0 ∷ 0 ∷ 0 ∷ 0 ∷ 0 ∷ 0 ∷ 0 ∷ 0 ∷ 0 ∷ 0 ∷ 0 ∷ 0 ∷ []

abbrev subchunk_key : Bytes
subchunk_key = 2 ∷ 0 ∷ 0 ∷ 0 ∷ 1 ∷ 0 ∷ 0 ∷ 0 ∷ 47 ∷ 0 ∷ []

abbrev records : List (Bytes × Bytes)
records =
    (codes "actorprefix", other_value)
    ∷ (codes "actorprefix", actor_value)
    ∷ (codes "actorprefix", actor_value)
    ∷ (subchunk_key, chunk)
    ∷ []

abbrev seen : Str → Line
seen eid = entity_line (record { eid = eid; x = float32 0; y = float32 0; z = float32 0 })

-- Texts are the same by their characters, and all else is alike.
abbrev key_of : Nbt → Str
key_of (text s) = s
key_of v = []

abbrev same_name : Nbt → Nbt → Bool
same_name a b = str_beq (key_of a) (key_of b)

-- The 4096 blocks of the sub-chunk are counted after the entities.
abbrev counts : Scan
counts =
    add_blocks same_name (blocks_or_none (decode_subchunk_blocks chunk (pos 2) (pos 1) (pos 0)))
      (record {
        log = seen (codes "z") ∷ seen (codes "abc") ∷ seen (codes "abc") ∷ [];
        block_counts = [];
        entity_counts = (codes "z", 1) ∷ (codes "abc", 2) ∷ [];
        subchunks_scanned = 1;
        entities_scanned = 3;
        kv_count = 4;
      })

scanned : scan_records same_name records started ≡ ok counts
unfolding scan_records le_value decode_replace
scanned = refl

-- Each number is shown as a dot.
abbrev dots : Formats
dots = record {
  commas = λ n. codes ".";
  commas_6 = λ n. codes "     .";
  right_8 = λ n. codes "       .";
  right_5 = λ n. codes "    .";
  rounded = λ v. codes ".";
  str_of = λ v. codes "name";
}

abbrev new_lock : Option ℕ → Option ℕ × Option ℕ
new_lock lock = (some 7, some 9)

abbrev rows : ℕ → List (Bytes × Bytes)
rows db = records

abbrev argv : List Str
argv = codes "scan.py" ∷ codes "db" ∷ []

abbrev locked : Files ℕ
locked = record { lock = some 3; backup = none }

abbrev output : List Str
output =
    (opening dots (codes "db") ∷ (header dots ++ log_texts dots counts.log))
    ++ print_summary dots.commas dots.commas_6 dots.str_of counts

parse_root-ends_example : parse_root actor_value 0 ≢ err out_of_fuel
parse_root-ends_example = parse_root-ends actor_value 0

decode_subchunk_blocks-raises_example :
    (decode_subchunk_blocks (9 ∷ 1 ∷ 0 ∷ []) (pos 0) (pos 0) (pos 0) ≡ err index_error)
    ↔ ((index_error ≡ index_error) × CutShort (9 ∷ 1 ∷ 0 ∷ []))
decode_subchunk_blocks-raises_example =
    decode_subchunk_blocks-raises (9 ∷ 1 ∷ 0 ∷ []) (pos 0) (pos 0) (pos 0) index_error

-- With 3 bits a word holds ten indices, and the eleventh is taken from its two bits of padding.
four : blocks_per_word 4 * 4 ≡ 32
unfolding blocks_per_word
four = refl

second_word : get_elem? {A = ℕ} (0 ∷ 80 ∷ []) (9 / blocks_per_word 4) ≡ some 80
unfolding blocks_per_word
second_word = refl

indices_of-stored_example :
    get_elem? (indices_of 4 (0 ∷ 80 ∷ [])) 9 ≡ some (bits_at 4 80 (9 % blocks_per_word 4 * 4))
indices_of-stored_example =
    indices_of-stored 4 (0 ∷ 80 ∷ []) 9 80 (omega arith) four (omega arith) second_word

-- LevelDB that fails, and leaves a LOCK of its own.
abbrev failing : Option ℕ → Option ℕ × Option ℕ
failing found = (none, some 7)

open_db_readonly-restores_example :
    (open_db_readonly failing (record { lock = some 3; backup = some 5 })).1
    ≡ record { lock = some 3; backup = none }
open_db_readonly-restores_example = open_db_readonly-restores failing 3 (some 5)

e_acute : decode (195 ∷ 169 ∷ []) ≡ some (233 ∷ [])
unfolding decode
e_acute = refl

decode_replace-decode_example : decode_replace (195 ∷ 169 ∷ []) ≡ 233 ∷ []
decode_replace-decode_example = decode_replace-decode (195 ∷ 169 ∷ []) e_acute
