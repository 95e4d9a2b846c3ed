-- ===== src/Importer/Report.antt =====
-- internal/importer/report.go
use coeus.Prelude.{ℕ, ◌+◌, String, List, [], ◌∷◌, ◌++◌, length, ltb, if◌then◌else◌}

abbrev pub max_import_row_errors : ℕ
max_import_row_errors = 100

pub record RowError : Type 0 where
  pub row : ℕ
  pub message : String

pub record Report : Type 0 where
  pub total_rows : ℕ
  pub created : ℕ
  pub updated : ℕ
  pub failed : ℕ
  pub errors : List RowError

unfoldable pub add_row_error : ℕ → String → Report → Report
add_row_error row msg r = record r {
  failed = r.failed + 1;
  errors =
      if ltb (length r.errors) max_import_row_errors
      then r.errors ++ record { row = row; message = msg } ∷ []
      else r.errors;
}
