-- ===== src/Api/UsersKept/Import.antt =====
-- The import of internal/importer/importer.go, and its handler in question_import.go, which leave the
-- users as they are.
use coeus.Prelude.{
  ℕ, String, Char, Bool, true, false, Option, none, some, Result, ok, err, List, [], ◌∷◌, lift,
  zero, suc, take, drop, attempt,
}
use coeus.Domain.Types.{Uuid, Bytes}
use coeus.Domain.Errors.{GoError}
use coeus.Storage.World.{User, Io}
use coeus.Storage.Keeps.{Keeps, keeps_rules, Keeps-bind}
use coeus.Storage.UsersKept.{UsersAre}
use coeus.Storage.UsersKept.Questions.{Keeps-upsert_from_import}
use coeus.Http.Guards.{Identity}
use coeus.Storage.Keeps.{Keeps-map_err, Keeps-cancelled, Keeps-attempt, Keeps-pure}
use coeus.Storage.World.{cancelled}
use coeus.Storage.Questions.Import.{upsert_from_import}
use coeus.Importer.Report.{Report}
use coeus.Importer.Parse.{FileKind, CsvError, Workbook}
use coeus.Importer.Service.{
  EmbedBatch, ValidRow, join_rows, embed_chunks, embed_all, next_row, upsert_rows, import, texts,
  embedded, embed_chunk_size,
}
use coeus.Handlers.QuestionImport.{import_file, questions_upload}
use coeus.Api.UsersKept.{Keeps-sends, Keeps-refuse}

-- The remote embedder leaves the users alone.
abbrev pub BatchesApart : Option EmbedBatch → List User → Type 0
BatchesApart none us = Unit
BatchesApart (some embed) us = (texts : List String) → Keeps (UsersAre us) (embed texts)

module _ (us : List User) where
  Keeps-join_rows :
      (chunk : List ValidRow) (more : Io (List ValidRow)) (done : Option (List ValidRow))
      (rest : List ValidRow)
      → Keeps (UsersAre us) more
      → Keeps (UsersAre us) (join_rows chunk more done rest)
  Keeps-join_rows chunk more none rest k = Keeps-pure _
  Keeps-join_rows chunk more (some done) rest k = search (keeps_rules, k) depth 9

  Keeps-embed_chunks :
      (embed : EmbedBatch) (fuel : ℕ) (rows : List ValidRow)
      → ((texts : List String) → Keeps (UsersAre us) (embed texts))
      → Keeps (UsersAre us) (embed_chunks embed fuel rows)
  unfolding embed_chunks
  Keeps-embed_chunks embed zero rows apart = Keeps-pure rows
  Keeps-embed_chunks embed (suc fuel) [] apart = Keeps-pure []
  Keeps-embed_chunks embed (suc fuel) (vr ∷ vrs) apart =
      let chunk = take embed_chunk_size (vr ∷ vrs) in
      let rest = drop embed_chunk_size (vr ∷ vrs) in
      Keeps-bind (attempt (embed (texts chunk)))
        (λ answer. join_rows chunk (embed_chunks embed fuel rest) (embedded chunk answer) rest)
        (Keeps-attempt (embed (texts chunk)) (apart (texts chunk)))
        (λ answer.
          Keeps-join_rows chunk (embed_chunks embed fuel rest) (embedded chunk answer) rest
            (Keeps-embed_chunks embed fuel rest apart))

  Keeps-embed_all :
      (embedder : Option EmbedBatch) (valid : List ValidRow)
      → BatchesApart embedder us
      → Keeps (UsersAre us) (embed_all embedder valid)
  unfolding embed_all
  Keeps-embed_all none valid apart = Keeps-pure valid
  Keeps-embed_all (some embed) valid apart = Keeps-embed_chunks embed _ valid apart

  Keeps-next_row :
      (vr : ValidRow) (rep : Report) (more : Report → Io Report) (stop : Bool)
      → ((rep : Report) → Keeps (UsersAre us) (more rep))
      → Keeps (UsersAre us) (next_row upsert_from_import vr rep more stop)
  Keeps-next_row vr rep more true k = Keeps-pure rep
  Keeps-next_row vr rep more false k = search (keeps_rules, Keeps-upsert_from_import, k) depth 9

  Keeps-upsert_rows :
      (rows : List ValidRow) (rep : Report)
      → Keeps (UsersAre us) (upsert_rows upsert_from_import rows rep)
  unfolding upsert_rows
  Keeps-upsert_rows [] rep = Keeps-pure rep
  Keeps-upsert_rows (vr ∷ vrs) rep =
      Keeps-bind cancelled (next_row upsert_from_import vr rep (upsert_rows upsert_from_import vrs))
        Keeps-cancelled
        (λ stop.
          Keeps-next_row vr rep (upsert_rows upsert_from_import vrs) stop (Keeps-upsert_rows vrs))

  Keeps-lift : {A : Type 0} (r : Result GoError A) → Keeps (UsersAre us) (lift r)
  Keeps-lift (ok a) = record { at = λ w h. h }
  Keeps-lift (err e) = record { at = λ w h. h }

  Keeps-import :
      (lower : Char → Char) (sha256_hex : String → String) (embedder : Option EmbedBatch)
      (max_rows : ℕ) (parsed : Result GoError (List (List String))) (user_id : Uuid)
      → BatchesApart embedder us
      → Keeps
          (UsersAre us)
          (import lower sha256_hex upsert_from_import embedder max_rows parsed user_id)
  unfolding import
  Keeps-import lower sha256_hex embedder max_rows parsed user_id apart =
      search (keeps_rules, Keeps-lift, embeds, Keeps-upsert_rows) depth 14
    where
      embeds : (valid : List ValidRow) → Keeps (UsersAre us) (embed_all embedder valid)
      embeds valid = Keeps-embed_all embedder valid apart

  module _ (detect : Bytes → String) (csv_records : Bytes → List (Result CsvError (List String)))
      (open_workbook : Bytes → Result GoError Workbook) (lower : Char → Char)
      (sha256_hex : String → String) (embedder : Option EmbedBatch) (max_rows : ℕ)
      (apart : BatchesApart embedder us) where
    Keeps-import_file :
        (caller : Identity) (file : Bytes) (kind : Result GoError FileKind)
        → Keeps (UsersAre us) (
            import_file detect csv_records open_workbook lower sha256_hex embedder max_rows caller
              file kind)
    unfolding import_file
    Keeps-import_file caller file (err e) = Keeps-refuse _
    Keeps-import_file caller file (ok kind) =
        Keeps-bind _ _
          (Keeps-map_err _ _
            (Keeps-import lower sha256_hex embedder max_rows _ caller.claims.user_id apart))
          (λ rep. Keeps-sends 200 _)

    pub Keeps-questions_upload :
        (caller : Identity) (form : Option Bytes)
        → Keeps (UsersAre us) (
            questions_upload detect csv_records open_workbook lower sha256_hex embedder max_rows
              caller form)
    unfolding questions_upload
    Keeps-questions_upload caller none = Keeps-refuse _
    Keeps-questions_upload caller (some file) = Keeps-import_file caller file _
