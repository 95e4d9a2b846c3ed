-- ===== src/Handlers/Questions.antt =====
-- internal/httpapi/handlers/questions.go: the responses, List and Get. The writes are in the
-- children.
pub mod Edit
pub mod Create
pub mod NewRow
pub mod Authored
use coeus.Prelude.{
  ℕ, String, Char, Bool, true, false, not, ◌&&◌, ◌||◌, Option, none, some, Result, ok, err, List,
  map, any, pos, ℤ, lez, ltb, length, is_empty, str_eq, ◌==◌, ◌>>=◌, ◌>>◌, map_err, guard, gets,
  if◌then◌else◌, Exec,
}
use coeus.Domain.Types.{Uuid, Float, Question, QuestionUpdate, Session, multiple_correct}
use coeus.Domain.Errors.{GoError, is_domain, err_not_found}
use coeus.Domain.Validate.{validate_draft}
use coeus.Dto.Labels.{derive_answer_refs}
use coeus.Dto.Responses.{UserQuestionResponse, ExpertQuestionResponse, UpdateQuestionRequest}
use coeus.Storage.World.{World, Io}
use coeus.Storage.Sessions.{find_session}
use coeus.Storage.Questions.Views.{
  QuestionWithSession, QuestionExpertView, list_for_session, list_for_moderation, find_expert,
  find_for_user,
}
use coeus.Storage.Questions.Expert.{update_by_expert, delete_question}
use coeus.Http.Guards.{Reply, Identity, hidden, forbidden, gone, expired, answering, passing}
use coeus.Http.Auth.{failing}
use coeus.Handlers.Responses.{
  Sent, Handler, trying, sends, refuse, invalid, by_status, missing_or_failed, binds_update,
}
use coeus.Handlers.Paging.{Paging, parse_paging}

unfoldable pub is_expert : String → Bool
is_expert role = str_eq role "expert" || str_eq role "admin"

unfoldable pub to_user_response : QuestionWithSession → UserQuestionResponse
unfolding multiple_correct derive_answer_refs
to_user_response q = record {
  id = q.question.id;
  number = q.extracted_number;
  question = q.question.text;
  type = q.question.type;
  multiple_correct = multiple_correct q.question;
  choices = q.question.choices;
  answers = derive_answer_refs q.question.choices q.question.answers q.question.choice_labeling;
  status = q.question.status;
  confidence = q.question.confidence;
}

unfoldable pub to_expert_response : QuestionExpertView → ExpertQuestionResponse
unfolding multiple_correct
to_expert_response ev = record {
  id = ev.question.id;
  number = ev.question.number;
  question = ev.question.text;
  multiple_correct = multiple_correct ev.question;
  choices = ev.question.choices;
  answers = ev.question.answers;
  choice_labeling = ev.question.choice_labeling;
  type = ev.question.type;
  confidence = ev.question.confidence;
  explanation = ev.question.explanation;
  tags = ev.question.tags;
  status = ev.question.status;
  image_id = ev.image_id;
  has_verification_report = ev.has_verification_report;
  verified_at = ev.question.verified_at;
  verified_by = ev.question.verified_by;
}

unfoldable pub to_expert_response_from_session : QuestionWithSession → ExpertQuestionResponse
unfolding multiple_correct
to_expert_response_from_session qws = record {
  id = qws.question.id;
  number = qws.extracted_number;
  question = qws.question.text;
  multiple_correct = multiple_correct qws.question;
  choices = qws.question.choices;
  answers = qws.question.answers;
  choice_labeling = qws.question.choice_labeling;
  type = qws.question.type;
  confidence = qws.question.confidence;
  explanation = qws.question.explanation;
  tags = qws.question.tags;
  status = qws.question.status;
  image_id = some qws.image_id;
  has_verification_report = false;
  verified_at = qws.question.verified_at;
  verified_by = qws.question.verified_by;
}

-- One element of the list, whose shape is the role's
pub data QuestionItem : Type 0 where
  for_user : UserQuestionResponse → QuestionItem
  for_expert : ExpertQuestionResponse → QuestionItem

pub record QuestionListResponse : Type 0 where
  pub questions : List QuestionItem
  pub page : ℕ
  pub per_page : ℕ

-- The keys of the query that List reads; an empty session_id is `none`.
pub record QuestionQuery : Type 0 where
  pub page : Option String
  pub per_page : Option String
  pub status : String
  pub session_id : Option Uuid
  pub search : String

abbrev page_of : Paging → List QuestionItem → QuestionListResponse
page_of p items = record { questions = items; page = p.page; per_page = p.per_page }

unfoldable pub status_filter_valid : String → Bool
status_filter_valid s =
    str_eq s "" || (str_eq s "moderation" || (str_eq s "verified" || str_eq s "error"))

-- The gates of a user's read: ownership, then the state and the end of the session.
unfoldable pub user_gate : Uuid → Session → Exec Reply World (Unit {0})
user_gate user_id sess = do
  guard (sess.user_id == user_id) forbidden
  guard (str_eq sess.status "open") gone
  at ← gets (λ (w : World). w.clock)
  guard (not (expired at sess.expires_at)) gone

abbrev item_for : Bool → QuestionWithSession → QuestionItem
item_for true q = for_expert (to_expert_response_from_session q)
item_for false q = for_user (to_user_response q)

unfoldable pub list_session_scope : Identity → String → Uuid → Paging → Handler QuestionListResponse
unfolding is_expert user_gate to_expert_response_from_session to_user_response
list_session_scope caller status session_id p = do
  sess ← answering hidden (find_session session_id)
  if is_expert caller.claims.role then passing tt else user_gate caller.claims.user_id sess
  items ← map_err failing (list_for_session session_id status (pos p.per_page) p.offset)
  sends 200 (page_of p (map (item_for (is_expert caller.claims.role)) items))

module _ (lower : Char → Char) (json : List String → String) where
  unfoldable pub list_moderation_queue :
      Identity → String → String → Paging → Handler QuestionListResponse
  unfolding is_expert to_expert_response
  list_moderation_queue caller status search p = do
    guard (is_expert caller.claims.role) forbidden
    items ← map_err failing (list_for_moderation lower json status search (pos p.per_page) p.offset)
    sends 200 (page_of p (map (λ ev. for_expert (to_expert_response ev)) items))

  abbrev pub scoped : Identity → QuestionQuery → Option Uuid → Paging → Handler QuestionListResponse
  scoped caller query none p = list_moderation_queue caller query.status query.search p
  scoped caller query (some id) p = list_session_scope caller query.status id p

  unfoldable pub questions_list : Identity → QuestionQuery → Handler QuestionListResponse
  unfolding list_moderation_queue list_session_scope parse_paging status_filter_valid
  questions_list caller query = do
    guard (status_filter_valid query.status) invalid
    scoped caller query query.session_id (parse_paging query.page query.per_page)

unfoldable pub questions_get : Identity → Uuid → Handler QuestionItem
unfolding is_expert missing_or_failed to_expert_response to_user_response
questions_get caller id =
    if is_expert caller.claims.role
    then (do
      ev ← map_err missing_or_failed (find_expert id)
      sends 200 (for_expert (to_expert_response ev)))
    else (do
      qws ← answering hidden (find_for_user id caller.claims.user_id)
      sends 200 (for_user (to_user_response qws)))
