-- ===== src/Bedrock/Report/Ranks.antt =====
-- What `print_summary` prints for the tallies of two lists of names.
use code_recipes.Common.{
  ℕ, suc, ◌≤◌, ◌≡◌, refl, sym, ap, ◌∙◌, arith, Bool, ◌==◌, List, [], ◌∷◌, ◌++◌, map, filter, length,
  length-map,
}
use code_recipes.Common.Eq.{Str, str_beq}
use code_recipes.Common.Text.{codes}
use code_recipes.Common.Sort.{sorted, sorted-IsSorted, IsSorted, NoneBelow, length-sorted}
use code_recipes.Common.Sort.Stable.{filter-sorted}
use code_recipes.Bedrock.Nbt.{Nbt}
use code_recipes.Bedrock.Scan.{Scan}
use code_recipes.Bedrock.Scan.Tally.{
  IsEquality, str_beq-IsEquality, tally, firsts, total-tally, length-tally,
}
use code_recipes.Bedrock.Report.{times, more_often, ranked, table, headline, print_summary}

module _ {K : Type 0} where
  abbrev pub UpTo : ℕ → List (K × ℕ) → Type 0
  UpTo n [] = Unit
  UpTo n (r ∷ rs) = (r.1 ≤ n) × UpTo n rs

  abbrev pub Descending : List (K × ℕ) → Type 0
  Descending [] = Unit
  Descending (r ∷ rs) = UpTo r.1 rs × Descending rs

  -- The counts from the highest to the lowest, equal ones in the order they came in.
  pub record Ranks (counts rows : List (K × ℕ)) : Type 0 where
    pub descending : Descending rows
    pub stable : (n : ℕ) → filter (λ r. r.1 == n) rows ≡ filter (λ r. r.1 == n) counts

  NoneBelow-UpTo : (r : K × ℕ) (rs : List (K × ℕ)) → NoneBelow more_often r rs → UpTo r.1 rs
  NoneBelow-UpTo r [] h = tt
  NoneBelow-UpTo r (x ∷ rs) h = ground (arith, NoneBelow-UpTo r rs h.1)

  IsSorted-Descending : (rs : List (K × ℕ)) → IsSorted more_often rs → Descending rs
  IsSorted-Descending [] h = tt
  IsSorted-Descending (r ∷ rs) h = (NoneBelow-UpTo r rs h.0, IsSorted-Descending rs h.1)

  pub ranked-Ranks : (counts : List (K × ℕ)) → Ranks counts (ranked counts)
  unfolding ranked
  ranked-Ranks counts = record {
    descending =
        IsSorted-Descending (sorted more_often counts)
          (sorted-IsSorted more_often (λ a b h. ground arith) (λ a b c h g. ground arith) counts);
    stable = λ n. filter-sorted more_often (λ r. r.1 == n) (λ a b h g. ground arith) counts;
  }

  length-ranked : (counts : List (K × ℕ)) → length (ranked counts) ≡ length counts
  unfolding ranked
  length-ranked counts = length-sorted more_often counts

-- A heading over lines, where there are some.
abbrev pub headed : Str → List Str → List Str
headed heading [] = []
headed heading (line ∷ lines) = [] ∷ heading ∷ line ∷ lines

headed_lines :
    (heading : Str) (lines : List Str) (n : ℕ)
    → length lines ≡ suc n
    → headed heading lines ≡ [] ∷ heading ∷ lines
headed_lines heading [] n e = ground arith
headed_lines heading (line ∷ lines) n e = refl

module _ (commas commas_6 : ℕ → Str) where
  -- A row of a table: the count and the name.
  abbrev pub row_text : {K : Type 0} → (K → Str) → K × ℕ → Str
  row_text name_of r = codes "    " ++ (commas_6 r.1 ++ (codes "  " ++ name_of r.0))

  abbrev pub totals_text : Str → ℕ → ℕ → Str
  totals_text label lines types =
      label ++ (commas lines ++ (codes " total, " ++ (commas types ++ codes " unique types")))

  -- The summary for the numbers of sub-chunks and of actors, the names in the lines for blocks and for
  -- entities, and the rows of the two tables.
  abbrev pub summary_text :
      (Nbt → Nbt → Bool)
      → (Nbt → Str)
      → ℕ
      → ℕ
      → List Nbt
      → List Str
      → List (Nbt × ℕ)
      → List (Str × ℕ)
      → List Str
  summary_text same str_of subs acts blocks ids block_rows entity_rows =
      ([]
        ∷ times b'=' 70
        ∷ codes "SUMMARY"
        ∷ times b'=' 70
        ∷ (codes "  Subchunks scanned : " ++ commas subs)
        ∷ (codes "  Entities scanned  : " ++ commas acts)
        ∷ totals_text (codes "  Non-natural blocks: ") (length blocks) (length (firsts same blocks))
        ∷ totals_text (codes "  Non-natural entit.: ") (length ids) (length (firsts str_beq ids))
        ∷ [])
      ++ (headed (codes "  Block type counts:") (map (row_text str_of) block_rows)
          ++ headed (codes "  Entity type counts:") (map (row_text (λ eid. eid)) entity_rows))

  table-headed :
      {K : Type 0} (heading : Str) (name_of : K → Str) (counts : List (K × ℕ))
      → table commas commas_6 heading name_of counts
        ≡ headed heading (map (row_text name_of) (ranked counts))
  unfolding ranked sorted
  table-headed heading name_of [] = refl
  table-headed heading name_of (c ∷ counts) = sym (
      headed_lines heading (map (row_text name_of) (ranked (c ∷ counts))) (length counts)
        (length-map (ranked (c ∷ counts)) (row_text name_of) ∙ length-ranked (c ∷ counts)))

  headline-totals :
      {K : Type 0} (same : K → K → Bool)
      → IsEquality same
      → (label : Str) (names : List K)
      → headline commas commas_6 label (tally same names)
        ≡ totals_text label (length names) (length (firsts same names))
  headline-totals same eq label names =
      ap
        (λ n.
          label
          ++ (commas n
              ++ (codes " total, "
                  ++ (commas (length (tally same names)) ++ codes " unique types"))))
        (total-tally same eq names)
      ∙ ap (totals_text label (length names)) (length-tally same names)

  pub print_summary_lem :
      (same : Nbt → Nbt → Bool) (str_of : Nbt → Str) (s : Scan) (blocks : List Nbt) (ids : List Str)
      → IsEquality same
      → s.block_counts ≡ tally same blocks
      → s.entity_counts ≡ tally str_beq ids
      → print_summary commas commas_6 str_of s
        ≡ summary_text same str_of s.subchunks_scanned s.entities_scanned blocks ids
            (ranked (tally same blocks))
            (ranked (tally str_beq ids))
  unfolding print_summary
  print_summary_lem same str_of s blocks ids eq p q =
      rw
        (
          p,
          q,
          headline-totals same eq (codes "  Non-natural blocks: ") blocks,
          headline-totals str_beq str_beq-IsEquality (codes "  Non-natural entit.: ") ids,
          table-headed (codes "  Block type counts:") str_of (tally same blocks),
          table-headed (codes "  Entity type counts:") (λ eid. eid) (tally str_beq ids),
        )
        refl
