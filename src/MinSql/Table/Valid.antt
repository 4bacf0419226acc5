-- ===== src/MinSql/Table/Valid.antt =====
-- Every row has a value for each column, and every column a place in the rows.
use code_recipes.Common.{
  ℕ, suc, ◌+◌, ◌≤◌, ◌<◌, ◌≡◌, refl, subst, ◌∙◌, arith, Bool-cases, inl, inr, List, [], ◌∷◌, ◌++◌,
  length, replicate, set, some, Option-cases, length-set, length-replicate,
}
use code_recipes.Common.Eq.{Str, str_eq, str_beq}
use code_recipes.Common.Dict.{Dict, lookup, insert}
use code_recipes.Common.Result.{ok, >>=-eq-ok}
use code_recipes.MinSql.Value.{Value, null, Run}
use code_recipes.MinSql.Table.{Row, Table, index_columns, new, fill_row, insert_row}

abbrev pub Below : ℕ → Dict Str ℕ → Type 0
Below n [] = Unit
Below n ((k, i) ∷ d) = (i < n) × Below n d

abbrev pub RowsOf : ℕ → List Row → Type 0
RowsOf n [] = Unit
RowsOf n (row ∷ rows) = (length row ≡ n) × RowsOf n rows

pub record IsValid (t : Table) : Type 0 where
  pub rows_of : RowsOf t.n t.rows
  pub places_below : Below t.n t.col_index

Below-weaken : {m n : ℕ} (d : Dict Str ℕ) → m ≤ n → Below m d → Below n d
Below-weaken [] h b = tt
Below-weaken ((k, i) ∷ d) h b = (omega (arith, b.0), Below-weaken d h b.1)

some_inj : {i j : ℕ} → some i ≡ some j → i ≡ j
some_inj e = cc

abbrev ran : {A : Type 0} → A → Run A
ran a = ok a

ok_inj : {A : Type 0} {a b : A} → ran a ≡ ran b → a ≡ b
ok_inj e = cc

insert-Below : (k : Str) (i n : ℕ) (d : Dict Str ℕ) → i < n → Below n d → Below n (insert k i d)
unfolding insert
insert-Below k i n [] h b = (h, tt)
insert-Below k i n ((j, v) ∷ d) h b = elim (Bool-cases (str_beq j k)) [
  | inl same ↦ rw same (h, b.1)
  | inr other ↦ rw other (b.0, insert-Below k i n d h b.1)
]

pub lookup-Below :
    (k : Str) (n : ℕ) (d : Dict Str ℕ) {i : ℕ} → Below n d → lookup k d ≡ some i → i < n
unfolding lookup
lookup-Below k n [] b h = cc
lookup-Below k n ((j, v) ∷ d) b h = elim (Bool-cases (str_beq j k)) [
  | inl same ↦ (let h' = rw same at h in omega (arith, b.0, some_inj h'))
  | inr other ↦ lookup-Below k n d b.1 (rw other at h)
]

index_columns-Below :
    (cols : List Str) (i : ℕ) (d : Dict Str ℕ) {e : Dict Str ℕ}
    → Below i d
    → index_columns cols i d ≡ ok e
    → Below (i + length cols) e
unfolding index_columns
index_columns-Below [] i d b h = subst (Below (i + 0)) (ok_inj h) (Below-weaken d (omega arith) b)
index_columns-Below (c ∷ cols) i d {e = e} b h = elim (Option-cases (lookup c d)) [
  | inl unseen ↦
      let next = insert-Below c i (suc i) d (omega arith) (Below-weaken d (omega arith) b) in
      let rest =
        index_columns-Below cols (suc i) (insert c i d) next (rw (unseen, index_columns) at h) in
      subst (λ n. Below n e) (omega arith) rest
  | inr (j, old) ↦ (let h' = rw (old, index_columns) at h in cc)
]

length-fill_row :
    (d : Dict Str ℕ) (cols : List Str) (vals : List Value) (row : Row)
    → length (fill_row d cols vals row).0 ≡ length row
unfolding fill_row
length-fill_row d [] vals row = refl
length-fill_row d (c ∷ cols) [] row = refl
length-fill_row d (c ∷ cols) (v ∷ vals) row = elim (Option-cases (lookup c d)) [
  | inl missing ↦ rw (missing, fill_row) refl
  | inr (i, there) ↦
      rw (there, fill_row) (length-fill_row d cols vals (set row i v) ∙ length-set row i v)
]

RowsOf-append :
    (n : ℕ) (rows : List Row) (row : Row)
    → RowsOf n rows
    → length row ≡ n
    → RowsOf n (rows ++ row ∷ [])
RowsOf-append n [] row r h = (h, tt)
RowsOf-append n (x ∷ rows) row r h = (r.0, RowsOf-append n rows row r.1 h)

-- A new table is valid.
pub new-IsValid : (columns : List Str) {t : Table} → new columns ≡ ok t → IsValid t
unfolding new
new-IsValid columns h =
    let made = >>=-eq-ok (index_columns columns 0 []) _ h in
    subst IsValid (ok_inj made.2) (record {
      rows_of = tt;
      places_below = Below-weaken made.0 (omega arith) (index_columns-Below columns 0 [] tt made.1);
    })

-- Inserting keeps the table valid, also when the call raises NoSuchColumn.
pub insert_row-IsValid :
    (cols : List Str) (vals : List Value) (t : Table)
    → IsValid t
    → IsValid (insert_row cols vals t).0
unfolding insert_row
insert_row-IsValid cols vals t v = record {
  rows_of =
      RowsOf-append t.n t.rows _ v.rows_of
        (length-fill_row t.col_index cols vals (replicate t.n null) ∙ length-replicate t.n null);
  places_below = v.places_below;
}
