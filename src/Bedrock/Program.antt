-- ===== src/Bedrock/Program.antt =====
-- `scan_world` as a whole and the entry point: what is printed, the LOCK file, and how the program ends.
-- What it had printed before an exception that it does not catch is left out.
pub mod Prints
use code_recipes.Common.{ℕ, ◌≡◌, refl, ap, sym, ◌∙◌, Bool, List, [], ◌∷◌, ◌++◌, Option, none, some}
use code_recipes.Common.Int.{ℤ}
use code_recipes.Common.Eq.{Str}
use code_recipes.Common.Text.{codes}
use code_recipes.Common.Result.{Result, ok, err, ◌>>=◌, >>=-eq-ok}
use code_recipes.Bedrock.Nbt.{Nbt, Bytes, Error, Run}
use code_recipes.Bedrock.Scan.{Scan, Line, block_line, entity_line, started, scan_records}
use code_recipes.Bedrock.Scan.Lines.{lines_of}
use code_recipes.Bedrock.Scan.Summary.{Tallied, scan_records-Tallied}
use code_recipes.Bedrock.Report.{times, print_summary}
use code_recipes.Bedrock.Lock.{Files, open_db_readonly, open_db_readonly-restores}

-- `{n:,}` and `{n:6,}`, `{x:>8}` and `{x:>5}`, `{v:.0f}`, and the text of a name
pub record Formats : Type 0 where
  pub commas : ℕ → Str
  pub commas_6 : ℕ → Str
  pub right_8 : ℤ → Str
  pub right_5 : ℤ → Str
  pub rounded : Nbt → Str
  pub str_of : Nbt → Str

-- The program is left: by `sys.exit(1)`, after what it has printed, or by an exception.
pub data Stop : Type 0 where
  exit_one : List Str → Stop
  raised : Error → Stop

module _ (w : Formats) where
  -- The lines that are printed for a block and for an entity
  abbrev pub line_text : Line → List Str
  line_text (block_line b) =
      (w.right_8 b.x
        ++ (codes "  "
            ++ (w.right_5 b.y
                ++ (codes "  " ++ (w.right_8 b.z ++ (codes "  " ++ w.str_of b.name))))))
      ∷ []
  line_text (entity_line e) =
      []
      ∷ (codes "[ENTITY]  "
          ++ (w.rounded e.x
              ++ (codes "  "
                  ++ (w.rounded e.y ++ (codes "  " ++ (w.rounded e.z ++ (codes "  " ++ e.eid)))))))
      ∷ []

  abbrev pub log_texts : List Line → List Str
  log_texts [] = []
  log_texts (l ∷ ls) = line_text l ++ log_texts ls

  unfoldable pub opening : Str → Str
  opening db_path = codes "Opening world DB: " ++ db_path

  unfoldable pub header : List Str
  header =
      []
      ∷ codes "[NON-NATURAL BLOCKS]"
      ∷ codes "       X      Y         Z  Block"
      ∷ (times 9472 8
          ++ (codes "  "
              ++ (times 9472 5 ++ (codes "  " ++ (times 9472 8 ++ (codes "  " ++ times 9472 35))))))
      ∷ []

  module _ {F D : Type 0} (leveldb : Option F → Option D × Option F) (message : Str)
      (iterate : D → List (Bytes × Bytes)) (same : Nbt → Nbt → Bool) where
    -- What was printed, and the counts
    abbrev pub with_lines : Str → Run Scan → Result Stop (List Str × Scan)
    with_lines db_path (err e) = err (raised e)
    with_lines db_path (ok s) = ok (opening db_path ∷ (header ++ log_texts s.log), s)

    abbrev pub scan_opened : Str → Option D → Result Stop (List Str × Scan)
    scan_opened db_path none =
        err (exit_one (opening db_path ∷ (codes "ERROR: Cannot open DB: " ++ message) ∷ []))
    scan_opened db_path (some db) = with_lines db_path (scan_records same (iterate db) started)

    unfoldable pub scan_world : Str → Files F → Files F × Result Stop (List Str × Scan)
    scan_world db_path fs =
        let opened = open_db_readonly leveldb fs in (opened.1, scan_opened db_path opened.0)

    abbrev pub with_summary : List Str × Scan → Result Stop (List Str)
    with_summary (printed, s) = ok (printed ++ print_summary w.commas w.commas_6 w.str_of s)

    abbrev pub summed : Files F × Result Stop (List Str × Scan) → Files F × Result Stop (List Str)
    summed (fs, r) = (fs, r >>= with_summary)

    -- The entry point, from `sys.argv` and `__doc__`
    unfoldable pub main : List Str → List Str → Files F → Files F × Result Stop (List Str)
    main doc (program ∷ db_path ∷ more) fs = summed (scan_world db_path fs)
    main doc argv fs = (fs, err (exit_one doc))
