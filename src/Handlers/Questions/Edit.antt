-- ===== src/Handlers/Questions/Edit.antt =====
-- Update and Delete of internal/httpapi/handlers/questions.go.
use coeus.Prelude.{
  String, Bool, true, false, not, ◌&&◌, Option, none, some, Result, ok, err, any, pos, lez, ltb,
  length, is_empty, ◌>>=◌, ◌>>◌, map_err, guard, if◌then◌else◌, Exec,
}
use coeus.Domain.Types.{Uuid, Float, QuestionUpdate}
use coeus.Domain.Errors.{GoError, is_domain, err_not_found}
use coeus.Domain.Validate.{validate_draft}
use coeus.Dto.Responses.{ExpertQuestionResponse, UpdateQuestionRequest}
use coeus.Storage.World.{World}
use coeus.Storage.Questions.Views.{QuestionExpertView, find_expert}
use coeus.Storage.Questions.Expert.{update_by_expert, delete_question}
use coeus.Http.Guards.{Reply, Identity, hidden, passing}
use coeus.Handlers.Responses.{
  Handler, trying, sends, refuse, invalid, by_status, missing_or_failed, binds_update,
}
use coeus.Handlers.Questions.{to_expert_response}

-- The confidence of a request between 0 and 1, or the default; `none` is out of range.
unfoldable pub confidence_of : Float → Option Float → Option Float
confidence_of default none = some default
confidence_of default (some x) = if lez (pos 0) x && lez x (pos 1000000) then some x else none

-- The full view, or where the re-fetch fails the id and the status alone
pub data QuestionBody : Type 0 where
  full : ExpertQuestionResponse → QuestionBody
  partial : Uuid → String → QuestionBody

unfoldable pub question_body : Uuid → String → Result GoError QuestionExpertView → QuestionBody
unfolding to_expert_response
question_body id status (ok ev) = full (to_expert_response ev)
question_body id status (err e) = partial id status

abbrev pub accepted : {A : Type 0} → Option A → Exec Reply World A
accepted none = refuse invalid
accepted (some a) = passing a

abbrev pub accepts : Option GoError → Bool
accepts none = true
accepts (some e) = false

unfoldable pub question_update : UpdateQuestionRequest → Float → QuestionUpdate
question_update req confidence = record {
  status = req.status;
  choices = req.choices;
  answers = req.answers;
  explanation = req.explanation;
  tags = req.tags;
  confidence = confidence;
  type = req.type;
}

unfoldable pub questions_update :
    Identity → Uuid → Option UpdateQuestionRequest → Handler QuestionBody
unfolding binds_update confidence_of missing_or_failed question_update question_body
questions_update caller id none = refuse invalid
questions_update caller id (some req) = do
  guard (binds_update req) invalid
  guard (accepts (validate_draft " " req.choices req.answers req.type)) invalid
  confidence ← accepted (confidence_of (pos 1000000) req.confidence)
  guard (not (ltb 20 (length req.tags))) invalid
  guard (not (any is_empty req.tags)) invalid
  map_err missing_or_failed
      (update_by_expert id (question_update req confidence) caller.claims.user_id)
  ev ← trying (find_expert id)
  sends 200 (question_body id req.status ev)

unfoldable pub delete_reply : GoError → Reply
unfolding by_status
delete_reply e = if is_domain err_not_found e then hidden else by_status e

unfoldable pub questions_delete : Uuid → Handler (Unit {0})
unfolding delete_reply
questions_delete id = do map_err delete_reply (delete_question id); sends 204 tt
