-- ===== src/Pipeline/Run.antt =====
-- execute and Run of internal/pipeline/pipeline.go. A panic of a service is not modelled, nor the
-- recover that turns it into a failed job.
pub mod Outcome
use coeus.Prelude.{
  ℕ, String, concat, Bool, true, false, not, Option, none, some, Result, ok, err, List, [], ◌∷◌,
  ◌>>=◌, ◌>>◌, map_err, attempt, guard, if◌then◌else◌,
}
use coeus.Domain.Types.{Uuid, Bytes, Job, Image}
use coeus.Domain.Errors.{GoError, wrap, error_text}
use coeus.Storage.World.{World, Io, pure, throw, cancelled}
use coeus.Storage.Images.{find_image, update_enhanced}
use coeus.Storage.Jobs.{complete, fail}
use coeus.Pipeline.Ports.{
  ExtractedQuestion, ExtractResult, ExtractionError, Services, PipelineConfig, ctx_error,
}
use coeus.Pipeline.Extract.{extract_with_retries}
use coeus.Pipeline.Failure.{handle_extraction_failure}
use coeus.Pipeline.Dedup.{process_questions}
use coeus.Pipeline.Verify.{verify_new}

-- A nil slice of bytes has length 0.
abbrev bytes_of : Option Bytes → Bytes
bytes_of none = []
bytes_of (some b) = b

abbrev pub use_enhanced : Image → Result GoError Bytes → Io Bytes
use_enhanced img (err e) = pure (bytes_of img.original)
use_enhanced img (ok []) = pure (bytes_of img.original)
use_enhanced img (ok (b ∷ bs)) = do
  map_err (wrap "persist enhanced") (update_enhanced img.id (b ∷ bs))
  pure (b ∷ bs)

abbrev failure_of : Option ExtractionError → String × String
failure_of none = ("extraction_failed", "no questions extracted")
failure_of (some e) = (e.code, e.detail)

abbrev pub extracted :
    Services → PipelineConfig → Job → Image → Result GoError ExtractResult → Io (Unit {0})
extracted svc cfg job img (err e) = do
  dead ← cancelled
  if dead then throw e else handle_extraction_failure svc job img "ai_unavailable" (error_text e)
extracted svc cfg job img (ok r) = elim r.questions [
  | [] ↦ handle_extraction_failure svc job img (failure_of r.error).0 (failure_of r.error).1
  | q ∷ qs ↦ (do news ← process_questions svc cfg job (q ∷ qs); verify_new svc img news)
]

unfoldable pub execute : Services → PipelineConfig → Job → Io (Unit {0})
execute svc cfg job = do
  dead ← cancelled
  guard (not dead) ctx_error
  img ← map_err (wrap "load image") (find_image job.image_id)
  bytes ← use_enhanced img (svc.enhance (bytes_of img.original) img.mime)
  result ← attempt (extract_with_retries svc cfg bytes img.mime)
  extracted svc cfg job img result

-- if ctx.Err() == nil { _ = p.jobs.Fail(…) }; return err
unfoldable pub give_up_on : Job → String → GoError → Io (Unit {0})
unfolding cancelled
give_up_on job msg e = do
  dead ← cancelled
  elim dead [ true ↦ throw e | false ↦ (do attempt (fail job.id msg); throw e) ]

abbrev pub finished : Job → Result GoError (Unit {0}) → Io (Unit {0})
finished job (ok _) = pure tt
finished job (err e) = give_up_on job (concat "complete failed: " (error_text e)) e

abbrev pub executed : Job → Result GoError (Unit {0}) → Io (Unit {0})
executed job (err e) = give_up_on job (error_text e) e
executed job (ok _) = do c ← attempt (complete job.id); finished job c

unfoldable pub run : Services → PipelineConfig → Job → Io (Unit {0})
unfolding give_up_on
run svc cfg job = do r ← attempt (execute svc cfg job); executed job r
