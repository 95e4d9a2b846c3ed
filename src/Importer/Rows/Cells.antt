-- ===== src/Importer/Rows/Cells.antt =====
-- The columns that normalizeRow of internal/importer/parse.go makes of a row's cells.
use coeus.Prelude.{
  ℕ, zero, suc, ◌≡◌, refl, sym, ap, ◌∙◌, String, Bool, true, false, not, ◌||◌, Result, ok, err,
  List, [], ◌∷◌, arith, length, drop, any, ltb, ◌⊎◌, inl, inr, Bool-cases,
}
use coeus.Domain.Errors.{GoError}
use coeus.Importer.Rows.{Columns, is_blank, keep_cell, trim_cells, cell_at, normalize_row}

abbrev pub filled : String → Bool
filled c = not (is_blank c)

filled-keep_cell :
    (c : String) (ds : List String)
    → ltb 0 (length (keep_cell c ds)) ≡ (filled c || ltb 0 (length ds))
filled-keep_cell c [] = elim (Bool-cases (is_blank c)) [ inl e ↦ rw e refl | inr e ↦ rw e refl ]
filled-keep_cell c (d ∷ ds) = ground arith

tail-keep_cell :
    (n : ℕ) (c : String) (ds : List String)
    → ltb (suc n) (length (keep_cell c ds)) ≡ ltb n (length ds)
tail-keep_cell n c [] = elim (Bool-cases (is_blank c)) [
  | inl e ↦ rw e (ground arith)
  | inr e ↦ rw e (ground arith)
]
tail-keep_cell n c (d ∷ ds) = ground arith

-- Cells are left beyond a column where one there is filled.
beyond : (n : ℕ) (cs : List String) → ltb n (length (trim_cells cs)) ≡ any filled (drop n cs)
unfolding trim_cells
beyond zero [] = refl
beyond (suc n) [] = ground arith
beyond zero (c ∷ cs) = filled-keep_cell c (trim_cells cs) ∙ ap (λ b. filled c || b) (beyond zero cs)
beyond (suc n) (c ∷ cs) = tail-keep_cell n c (trim_cells cs) ∙ beyond n cs

-- A column is its cell, or empty where the cell is blank.
abbrev pub Column : List String → ℕ → String → Type 0
Column cells i col = (col ≡ cell_at cells i) ⊎ ((is_blank (cell_at cells i) ≡ true) × (col ≡ ""))

keep_cell-Column :
    (c : String) (cs ds : List String) (i : ℕ)
    → ((k : ℕ) → Column cs k (cell_at ds k))
    → Column (c ∷ cs) i (cell_at (keep_cell c ds) i)
keep_cell-Column c cs [] zero h = elim (Bool-cases (is_blank c)) [
  | inl e ↦ rw e (inr (refl, refl))
  | inr e ↦ rw e (inl refl)
]
keep_cell-Column c cs [] (suc i) h = elim (Bool-cases (is_blank c)) [
  | inl e ↦ rw e (h i)
  | inr e ↦ rw e (h i)
]
keep_cell-Column c cs (d ∷ ds) zero h = inl refl
keep_cell-Column c cs (d ∷ ds) (suc i) h = h i

trim_cells-Column : (cs : List String) (i : ℕ) → Column cs i (cell_at (trim_cells cs) i)
unfolding trim_cells
trim_cells-Column [] i = inl refl
trim_cells-Column (c ∷ cs) i = keep_cell-Column c cs (trim_cells cs) i (trim_cells-Column cs)

-- A row is refused where a cell beyond the fifth is not blank; another has its five columns.
pub data Shape (cells : List String) : Result GoError Columns → Type 0 where
  wide : (e : GoError) → any filled (drop 5 cells) ≡ true → Shape cells (err e)
  fits :
      (cols : Columns)
      → any filled (drop 5 cells) ≡ false
      → Column cells 0 cols.text
      → Column cells 1 cols.choices
      → Column cells 2 cols.answers
      → Column cells 3 cols.explanation
      → Column cells 4 cols.tags
      → Shape cells (ok cols)

-- normalizeRow refuses a row exactly where some cell beyond the fifth is not blank; each column of
-- another row is its cell, or empty where the cell is missing or blank.
pub normalize_row-Shape : (cells : List String) → Shape cells (normalize_row cells)
unfolding normalize_row
normalize_row-Shape cells =
    let five : ltb 5 (length (trim_cells cells)) ≡ any filled (drop 5 cells) = beyond 5 cells in
    let cell : (i : ℕ) → Column cells i (cell_at (trim_cells cells) i) = trim_cells-Column cells in
    elim (Bool-cases (ltb 5 (length (trim_cells cells)))) [
      | inl e ↦ rw e (wide _ (sym five ∙ e))
      | inr e ↦ rw e (fits _ (sym five ∙ e) (cell 0) (cell 1) (cell 2) (cell 3) (cell 4))
    ]
