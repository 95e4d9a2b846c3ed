-- ===== src/Importer/Parse.antt =====
-- SniffKind, parseCSV and parseXLSX of internal/importer. What net/http, encoding/csv and excelize
-- answer is an argument.
use coeus.Prelude.{
  ℕ, String, concat, itoa, Bool, true, false, ◌&&◌, Result, ok, err, List, [], ◌∷◌, ◌==◌, length,
  leb, take, str_eq, has_prefix, if◌then◌else◌,
}
use coeus.Domain.Types.{Bytes}
use coeus.Domain.Errors.{GoError, domain, error_text}

pub data FileKind : Type 0 where
  csv xlsx : FileKind

abbrev validation : String → GoError
validation msg = domain (record { code = "validation"; message = msg })

abbrev pub err_empty_file : GoError
err_empty_file = validation "empty file"

abbrev pub err_unsupported_format : GoError
err_unsupported_format = validation "unsupported file format"

abbrev pub err_legacy_xls : GoError
err_legacy_xls = validation "legacy .xls not supported — save as .xlsx"

abbrev pub err_too_many_rows : GoError
err_too_many_rows = validation "too many rows"

abbrev ole2_magic : Bytes
ole2_magic = 0xD0 ∷ 0xCF ∷ 0x11 ∷ 0xE0 ∷ 0xA1 ∷ 0xB1 ∷ 0x1A ∷ 0xE1 ∷ []

-- bytes.Equal
pub bytes_equal : Bytes → Bytes → Bool
bytes_equal [] [] = true
bytes_equal (b ∷ bs) (c ∷ cs) = b == c && bytes_equal bs cs
bytes_equal _ _ = false

-- The test of the first byte that stands before it in the source is part of the comparison.
unfoldable pub sniff_kind : (Bytes → String) → Bytes → Result GoError FileKind
unfolding bytes_equal has_prefix
sniff_kind detect_content_type bytes =
    if length bytes == 0
    then err err_empty_file
    else if leb (length ole2_magic) (length bytes)
        && bytes_equal (take (length ole2_magic) bytes) ole2_magic
    then err err_legacy_xls
    else let ct = detect_content_type bytes in
      if has_prefix ct "text/"
      then ok csv
      else if str_eq ct "application/zip"
      then ok xlsx
      else err err_unsupported_format

-- An error of csv.Reader.Read: a *csv.ParseError, or one of the reader behind it.
pub data CsvError : Type 0 where
  parse_error : ℕ → ℕ → GoError → CsvError
  other : GoError → CsvError

abbrev csv_message : CsvError → String
csv_message (parse_error line column e) =
    concat "line "
      (concat (itoa line) (concat ", column " (concat (itoa column) (concat ": " (error_text e)))))
csv_message (other e) = error_text e

-- The reader yields records until io.EOF, the end of the list.
unfoldable pub parse_csv :
    List (Result CsvError (List String)) → Result GoError (List (List String))
parse_csv [] = ok []
parse_csv (err e ∷ more) = err (validation (concat "malformed csv: " (csv_message e)))
parse_csv (ok rec ∷ more) = elim (parse_csv more) [ ok rows ↦ ok (rec ∷ rows) | err e ↦ err e ]

abbrev malformed : String → GoError
malformed msg = validation (concat "malformed xlsx: " msg)

-- What excelize yields of a workbook: its sheets, and the rows of the first.
pub record Workbook : Type 0 where
  pub sheets : List String
  pub open_rows : String → Result GoError (List (Result GoError (List String)))
  pub rows_error : Result GoError (Unit {0})

collect :
    Result GoError (Unit {0})
    → List (Result GoError (List String))
    → Result GoError (List (List String))
collect (ok _) [] = ok []
collect (err e) [] = err (malformed (error_text e))
collect last (err e ∷ more) = err (malformed (error_text e))
collect last (ok cols ∷ more) = elim (collect last more) [
  | ok rows ↦ ok (cols ∷ rows)
  | err e ↦ err e
]

abbrev first_sheet : Workbook → List String → Result GoError (List (List String))
first_sheet f [] = err (malformed "no sheets")
first_sheet f (s ∷ ss) = elim (f.open_rows s) [
  | err e ↦ err (malformed (error_text e))
  | ok rows ↦ collect f.rows_error rows
]

unfoldable pub parse_xlsx : Result GoError Workbook → Result GoError (List (List String))
unfolding collect
parse_xlsx (err e) = err (malformed (error_text e))
parse_xlsx (ok f) = first_sheet f f.sheets
