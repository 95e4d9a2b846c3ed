-- ===== src/Pipeline/Verify.antt =====
-- Step 5 of execute, and resolveVerifiedAnswers, of internal/pipeline/pipeline.go.
use coeus.Prelude.{
  ◌&&◌, Option, none, some, Result, ok, err, List, [], ◌∷◌, ◌>>◌, attempt, pos, negsuc, ℤ, ltz, ltb,
  length, get_elem?, if◌then◌else◌,
}
use coeus.Domain.Types.{Float, Image}
use coeus.Domain.Errors.{GoError}
use coeus.Storage.World.{Io, pure}
use coeus.Storage.Images.{update_verification_report}
use coeus.Storage.Questions.{update_from_verification}
use coeus.Pipeline.Ports.{
  Answer, ExtractedQuestion, VerifiedQuestion, VerifyResult, Services, answer_texts,
}
use coeus.Pipeline.Dedup.{NewQuestion}

abbrev pub verify_confidence_threshold : Float
verify_confidence_threshold = pos 800000

unfoldable pub resolve_verified_answers : List Answer → List Answer → Float → List Answer
resolve_verified_answers ext [] confidence = ext
resolve_verified_answers ext (v ∷ vs) confidence =
    if ltb 0 (length ext) && ltz confidence verify_confidence_threshold then ext else v ∷ vs

-- vq.Index >= 0 && vq.Index < len(newQs)
abbrev at_index : List NewQuestion → ℤ → Option NewQuestion
at_index news (pos i) = get_elem? news i
at_index news (negsuc i) = none

abbrev pub save_answer : VerifiedQuestion → Option NewQuestion → Io (Unit {0})
save_answer vq none = pure tt
save_answer vq (some nq) = do
  attempt (
      update_from_verification nq.id
        (answer_texts (resolve_verified_answers nq.ext.answers vq.answers vq.confidence))
        vq.confidence vq.explanation)
  pure tt

unfoldable pub save_answers : List NewQuestion → List VerifiedQuestion → Io (Unit {0})
unfolding resolve_verified_answers
save_answers news [] = pure tt
save_answers news (vq ∷ vqs) = do save_answer vq (at_index news vq.index); save_answers news vqs

abbrev pub questions_of : List NewQuestion → List ExtractedQuestion
questions_of [] = []
questions_of (n ∷ ns) = n.ext ∷ questions_of ns

abbrev pub save_results : Image → List NewQuestion → Result GoError VerifyResult → Io (Unit {0})
save_results img news (err e) = pure tt
save_results img news (ok vr) = do
  save_answers news vr.results
  attempt (update_verification_report img.id vr.report)
  pure tt

unfoldable pub verify_new : Services → Image → List NewQuestion → Io (Unit {0})
unfolding save_answers
verify_new svc img [] = pure tt
verify_new svc img (n ∷ ns) = save_results img (n ∷ ns) (svc.verify (questions_of (n ∷ ns)))
