-- ===== src/Bedrock/Scan.antt =====
-- `decode_entity` and the loop of `scan_world` over the records of the database. What is printed is
-- a log, which Bedrock/Program sets in lines; the database is the list of its keys and values.
pub mod Lines
pub mod Tally
pub mod Counts
pub mod Adds
pub mod Summary
use code_recipes.Common.{
  ℕ, zero, suc, ◌+◌, ◌-◌, ◌*◌, Bool, true, false, not, ◌||◌, ◌&&◌, ltb, leb, ◌==◌, if◌then◌else◌,
  List, [], ◌∷◌, ◌++◌, length, get_elem?, map, Option, none, some,
}
use code_recipes.Common.Int.{ℤ, pos}
use code_recipes.Common.Eq.{Str, str_beq, str_eq}
use code_recipes.Common.Sort.{elem}
use code_recipes.Common.Result.{Result, ok, err, ◌>>=◌, or_raise}
use code_recipes.KvStore.Codec.Word.{le_value}
use code_recipes.Common.Text.{codes}
use code_recipes.Bedrock.Natural.{natural_entities}
use code_recipes.Bedrock.Nbt.{
  Nbt, nothing, number, float32, float64, byte_array, text, items, compound, Items, end, item,
  Fields, Bytes, Run, slice, to_signed, parse_nbt, type_error, value_error,
}
use code_recipes.Bedrock.Subchunk.{Block, is_falsy, get_field, decode_subchunk_blocks}

pub record Entity : Type 0 where
  pub eid : Str
  pub x : Nbt
  pub y : Nbt
  pub z : Nbt

abbrev first_three : Str → Nbt → Option Entity
first_three eid (items (item x (item y (item z more)))) =
    some (record { eid = eid; x = x; y = y; z = z })
first_three eid other = none

abbrev identified : Fields → Nbt → Option Entity
identified d (text eid) = first_three eid (get_field (codes "Pos") nothing d)
identified d other = none

abbrev of_dict : Nbt → Option Entity
of_dict (compound d) =
    let id = get_field (codes "id") nothing d in
    identified d (if is_falsy id then get_field (codes "identifier") nothing d else id)
of_dict other = none

unfoldable pub decode_entity : Bytes → Option Entity
unfolding parse_nbt
decode_entity data_ = of_dict (parse_nbt data_ 0).0

-- `f"{v:.0f}"` is a text for a number; for the values that are none it raises.
abbrev pub as_float : Nbt → Run (Unit {0})
as_float (number i) = ok tt
as_float (float32 v) = ok tt
as_float (float64 v) = ok tt
as_float (text s) = err value_error
as_float other = err type_error

-- `struct.unpack_from('<ii', key, 0)` and the signed byte after the tag
abbrev pub int_at : Bytes → ℕ → ℤ
int_at key o = to_signed 32 (le_value (slice key o 4))

pub data Kind : Type 0 where
  subchunk : (cx cz sub_y : ℤ) → Kind
  actor other : Kind

abbrev has_tag : ℕ → Bytes → Bool
has_tag at_ key = elim (get_elem? key at_) [ none ↦ false | some b ↦ b == 47 ]

abbrev subchunk_key : ℕ → Bytes → Kind
subchunk_key tag_off key =
    subchunk (int_at key 0) (int_at key 4) (to_signed 8 (le_value (slice key (tag_off + 1) 1)))

unfoldable pub kind_of : Bytes → Kind
kind_of key =
    if (length key == 10 && has_tag 8 key) || (length key == 14 && has_tag 12 key)
    then subchunk_key (if length key == 10 then 8 else 12) key
    else if str_beq (slice key 0 11) (codes "actorprefix")
    then actor
    else other

pub data Line : Type 0 where
  block_line : Block → Line
  entity_line : Entity → Line

-- `counts[k] += 1` on a defaultdict, with Python's equality of its keys.
abbrev pub bump : {K : Type 0} → (K → K → Bool) → K → List (K × ℕ) → List (K × ℕ)
bump same k [] = (k, 1) ∷ []
bump same k ((j, n) ∷ d) = if same j k then (j, n + 1) ∷ d else (j, n) ∷ bump same k d

pub record Scan : Type 0 where
  pub log : List Line
  pub block_counts : List (Nbt × ℕ)
  pub entity_counts : List (Str × ℕ)
  pub subchunks_scanned : ℕ
  pub entities_scanned : ℕ
  pub kv_count : ℕ

abbrev pub started : Scan
started = record {
  log = [];
  block_counts = [];
  entity_counts = [];
  subchunks_scanned = 0;
  entities_scanned = 0;
  kv_count = 0;
}

-- Python's equality of dict keys is a parameter: the names of blocks may be values of any kind.
module _ (same : Nbt → Nbt → Bool) where
  unfoldable pub add_block : Block → Scan → Scan
  add_block b s = record s {
    log = s.log ++ block_line b ∷ [];
    block_counts = bump same b.name s.block_counts;
  }

  unfoldable pub add_blocks : List Block → Scan → Scan
  unfolding add_block
  add_blocks [] s = s
  add_blocks (b ∷ bs) s = add_blocks bs (add_block b s)

  unfoldable pub add_entity : Option Entity → Scan → Run Scan
  unfolding elem natural_entities
  add_entity none s = ok s
  add_entity (some e) s = if elem e.eid natural_entities then ok s else (do
    done ← as_float e.x
    done ← as_float e.y
    done ← as_float e.z
    ok (record s {
      log = s.log ++ entity_line e ∷ [];
      entity_counts = bump str_beq e.eid s.entity_counts;
    }))

  unfoldable pub scan_record : Kind → Bytes → Scan → Run Scan
  unfolding decode_subchunk_blocks add_blocks decode_entity add_entity
  scan_record (subchunk cx cz sub_y) val s = do
    blocks ← decode_subchunk_blocks val cx cz sub_y
    ok (add_blocks blocks (record s { subchunks_scanned = s.subchunks_scanned + 1 }))
  scan_record actor val s =
      add_entity (decode_entity val) (record s { entities_scanned = s.entities_scanned + 1 })
  scan_record other val s = ok s

  -- The loop of `scan_world`
  unfoldable pub scan_records : List (Bytes × Bytes) → Scan → Run Scan
  unfolding kind_of scan_record
  scan_records [] s = ok s
  scan_records ((key, val) ∷ more) s =
      scan_record (kind_of key) val (record s { kv_count = s.kv_count + 1 }) >>= scan_records more

-- `sum(counts.values())`
abbrev pub total : {K : Type 0} → List (K × ℕ) → ℕ
total [] = 0
total ((k, n) ∷ d) = n + total d
