-- ===== src/Handlers/Expert.antt =====
-- internal/httpapi/handlers/expert.go.
use coeus.Prelude.{String, Option, none, some, ◌>>=◌, map_err}
use coeus.Domain.Types.{Uuid, Bytes}
use coeus.Storage.Images.{find_image}
use coeus.Http.Guards.{hidden}
use coeus.Handlers.Responses.{Handler, sends, refuse, missing_or_failed}

pub record ImageFile : Type 0 where
  pub mime : String
  pub bytes : Bytes

abbrev pub send_original : String → Option Bytes → Handler ImageFile
send_original mime none = refuse hidden
send_original mime (some original) = sends 200 (record { mime = mime; bytes = original })

unfoldable pub get_image : Uuid → Handler ImageFile
unfolding missing_or_failed
get_image id = do
  img ← map_err missing_or_failed (find_image id)
  send_original img.mime img.original

abbrev report_or_null : Option String → String
report_or_null none = "null"
report_or_null (some report) = report

-- The body is JSON already.
unfoldable pub get_verification_report : Uuid → Handler String
unfolding missing_or_failed
get_verification_report id = do
  img ← map_err missing_or_failed (find_image id)
  sends 200 (report_or_null img.verification_report)
