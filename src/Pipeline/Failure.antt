-- ===== src/Pipeline/Failure.antt =====
-- handleExtractionFailure of internal/pipeline/pipeline.go.
pub mod Placeholder
use coeus.Prelude.{
  ℕ, String, concat, Bool, Option, none, some, Result, ok, err, List, [], ◌∷◌, ◌>>=◌, ◌>>◌, attempt,
  pos,
}
use coeus.Domain.Types.{Uuid, Job, Image, Question}
use coeus.Domain.Errors.{GoError}
use coeus.Domain.Normalize.{hash_question}
use coeus.Storage.World.{World, Io, pure}
use coeus.Storage.Images.{update_extraction_error}
use coeus.Storage.Questions.{create_question, link_to_session}
use coeus.Pipeline.Ports.{Services}

-- The fields that the source leaves out have Go's zero values.
unfoldable pub placeholder : Services → Uuid → String → Question
unfolding hash_question
placeholder svc image_id code = record {
  id = 0;
  number = pos 0;
  text = concat "Extraction failed: " code;
  text_norm = concat "extraction failed " code;
  text_hash = hash_question svc.sha256_hex (concat "error:" (svc.show_uuid image_id));
  choices = [];
  answers = [];
  choice_labeling = "";
  type = "multiple_choice";
  confidence = pos 0;
  explanation = "";
  embedding = none;
  status = "error";
  verified_at = none;
  verified_by = none;
  tags = "extraction-failed" ∷ [];
}

abbrev pub link_placeholder : Job → Result GoError Uuid → Io (Unit {0})
link_placeholder job (err e) = pure tt
link_placeholder job (ok id) = do
  attempt (link_to_session job.session_id job.image_id id (pos 0) (pos 0))
  pure tt

unfoldable pub handle_extraction_failure : Services → Job → Image → String → String → Io (Unit {0})
unfolding placeholder
handle_extraction_failure svc job img code detail = do
  attempt (update_extraction_error img.id (svc.error_json code detail))
  created ← attempt (create_question (placeholder svc img.id code))
  link_placeholder job created
