-- ===== src/Bedrock/Report.antt =====
-- `ordinal` and `print_summary`: the lines that are printed once the scan is over. The text of a number
-- and the texts of `{n:,}` and `{n:6,}` are parameters, and so is that of a name.
pub mod Ranks
use code_recipes.Common.{
  ℕ, zero, suc, ◌%◌, arith, Bool, ◌&&◌, ltb, leb, ◌==◌, if◌then◌else◌, List, [], ◌∷◌, ◌++◌, length,
  map,
}
use code_recipes.Common.Eq.{Str}
use code_recipes.Common.Text.{codes}
use code_recipes.Common.Sort.{sorted}
use code_recipes.Bedrock.Nbt.{Nbt}
use code_recipes.Bedrock.Scan.{Scan, total}

-- `{1: "st", 2: "nd", 3: "rd"}.get(n % 10, "th")`
abbrev suffix : ℕ → Str
suffix d =
    if d == 1
    then codes "st"
    else if d == 2
    then codes "nd"
    else if d == 3
    then codes "rd"
    else codes "th"

abbrev ordinal : (ℕ → Str) → ℕ → Str
ordinal text_of n =
    if leb 11 (n % 100) && leb (n % 100) 13
    then text_of n ++ codes "th"
    else text_of n ++ suffix (n % 10)

-- `-a[1] < -b[1]`
abbrev pub more_often : {K : Type 0} → K × ℕ → K × ℕ → Bool
more_often a b = ltb b.1 a.1

-- `sorted(counts.items(), key=lambda x: -x[1])`
unfoldable pub ranked : {K : Type 0} → List (K × ℕ) → List (K × ℕ)
unfolding sorted
ranked counts = sorted more_often counts

-- `"=" * 70` and the like
abbrev pub times : ℕ → ℕ → Str
times c zero = []
times c (suc n) = c ∷ times c n

module _ (commas commas_6 : ℕ → Str) where
  abbrev pub row : {K : Type 0} → (K → Str) → K × ℕ → Str
  row name_of (k, cnt) = codes "    " ++ (commas_6 cnt ++ (codes "  " ++ name_of k))

  -- The heading and the rows of one kind, or nothing where there is none.
  abbrev pub table : {K : Type 0} → Str → (K → Str) → List (K × ℕ) → List Str
  table heading name_of [] = []
  table heading name_of (c ∷ counts) = [] ∷ heading ∷ map (row name_of) (ranked (c ∷ counts))

  abbrev pub headline : {K : Type 0} → Str → List (K × ℕ) → Str
  headline label counts =
      label
      ++ (commas (total counts)
          ++ (codes " total, " ++ (commas (length counts) ++ codes " unique types")))

  unfoldable pub print_summary : (Nbt → Str) → Scan → List Str
  unfolding ranked
  print_summary str_of s =
      ([]
        ∷ times b'=' 70
        ∷ codes "SUMMARY"
        ∷ times b'=' 70
        ∷ (codes "  Subchunks scanned : " ++ commas s.subchunks_scanned)
        ∷ (codes "  Entities scanned  : " ++ commas s.entities_scanned)
        ∷ headline (codes "  Non-natural blocks: ") s.block_counts
        ∷ headline (codes "  Non-natural entit.: ") s.entity_counts
        ∷ [])
      ++ (table (codes "  Block type counts:") str_of s.block_counts
          ++ table (codes "  Entity type counts:") (λ eid. eid) s.entity_counts)
