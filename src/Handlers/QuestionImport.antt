-- ===== src/Handlers/QuestionImport.antt =====
-- Upload of internal/httpapi/handlers/question_import.go. `form` is the file within the size cap;
-- what encoding/csv and excelize read of it are arguments.
use coeus.Prelude.{ℕ, String, Char, Option, none, some, Result, ok, err, List, map, ◌>>=◌, map_err}
use coeus.Domain.Types.{Bytes}
use coeus.Domain.Errors.{GoError}
use coeus.Dto.Responses.{ImportRowError, ImportReportResponse}
use coeus.Storage.Questions.Import.{upsert_from_import}
use coeus.Importer.Report.{Report, RowError}
use coeus.Importer.Parse.{FileKind, CsvError, Workbook, sniff_kind, parse_csv, parse_xlsx}
use coeus.Importer.Service.{EmbedBatch, import}
use coeus.Http.Guards.{Identity}
use coeus.Handlers.Responses.{Handler, sends, refuse, invalid, by_status}

abbrev row_error : RowError → ImportRowError
row_error e = record { row = e.row; message = e.message }

unfoldable pub report_response : Report → ImportReportResponse
report_response rep = record {
  total_rows = rep.total_rows;
  created = rep.created;
  updated = rep.updated;
  failed = rep.failed;
  errors = map row_error rep.errors;
}

module _ (detect_content_type : Bytes → String)
    (csv_records : Bytes → List (Result CsvError (List String)))
    (open_workbook : Bytes → Result GoError Workbook) (lower : Char → Char)
    (sha256_hex : String → String) (embedder : Option EmbedBatch) (max_rows : ℕ) where
  -- The switch of Import
  unfoldable pub parse_rows : FileKind → Bytes → Result GoError (List (List String))
  unfolding parse_csv parse_xlsx
  parse_rows FileKind.csv file = parse_csv (csv_records file)
  parse_rows FileKind.xlsx file = parse_xlsx (open_workbook file)

  unfoldable pub import_file :
      Identity → Bytes → Result GoError FileKind → Handler ImportReportResponse
  unfolding by_status report_response import parse_rows
  import_file caller file (err e) = refuse (by_status e)
  import_file caller file (ok kind) = do
    rep ← map_err by_status (
        import lower sha256_hex upsert_from_import embedder max_rows (parse_rows kind file)
          caller.claims.user_id)
    sends 200 (report_response rep)

  unfoldable pub questions_upload : Identity → Option Bytes → Handler ImportReportResponse
  unfolding import_file sniff_kind
  questions_upload caller none = refuse invalid
  questions_upload caller (some file) =
      import_file caller file (sniff_kind detect_content_type file)
