-- ===== src/Handlers/Questions/Create.antt =====
-- Create of internal/httpapi/handlers/questions.go.
use coeus.Prelude.{
  String, Char, Bool, ◌||◌, Option, none, some, Result, ok, err, [], ◌∷◌, ◌++◌, pos, str_eq, ◌>>=◌,
  ◌>>◌, map_err, guard, gets, if◌then◌else◌, Exec,
}
use coeus.Domain.Types.{Uuid, Instant, Float, Vector, Question}
use coeus.Domain.Errors.{GoError}
use coeus.Domain.Validate.{validate_draft}
use coeus.Domain.Normalize.{normalize_question, hash_question}
use coeus.Dto.Responses.{CreateQuestionRequest}
use coeus.Storage.World.{World, Io}
use coeus.Storage.Questions.{find_exact, create_question}
use coeus.Storage.Questions.Views.{find_expert}
use coeus.Http.Guards.{Reply, Identity, passing}
use coeus.Http.Auth.{failing}
use coeus.Handlers.Responses.{Handler, trying, sends, refuse, invalid, binds_create}
use coeus.Handlers.Questions.Edit.{confidence_of, accepted, accepts, QuestionBody, question_body}

-- The 409 of a duplicate carries the id of the question that is there.
pub data Created : Type 0 where
  conflict : Uuid → Created
  created : QuestionBody → Created

abbrev or_letter : String → String
or_letter labeling = if str_eq labeling "" then "letter" else labeling

unfoldable pub labeling_valid : String → Bool
labeling_valid l = str_eq l "" || (str_eq l "letter" || str_eq l "number")

unfoldable pub authored :
    CreateQuestionRequest → String → String → Float → Option Vector → Instant → Uuid → Question
authored req norm hash confidence embedding at expert_id = record {
  id = 0;
  number = pos 0;
  text = req.question;
  text_norm = norm;
  text_hash = hash;
  choices = req.choices;
  answers = req.answers;
  choice_labeling = or_letter req.choice_labeling;
  type = req.type;
  confidence = confidence;
  explanation = req.explanation;
  embedding = embedding;
  status = "verified";
  verified_at = some at;
  verified_by = some expert_id;
  tags = req.tags ++ "manual-entry" ∷ [];
}

-- A nil embedder is `none`; its error leaves the question without an embedding.
abbrev pub vector_or_none : Result GoError Vector → Option Vector
vector_or_none (ok v) = some v
vector_or_none (err e) = none

module _ (lower : Char → Char) (sha256_hex : String → String)
    (embedder : Option (String → Io Vector)) where
  unfoldable pub embed_best_effort : String → Exec Reply World (Option Vector)
  embed_best_effort text = elim embedder [
    | none ↦ passing none
    | some embed ↦ (do v ← trying (embed text); passing (vector_or_none v))
  ]

  -- From the embedding to the response
  unfoldable pub store_authored :
      Identity → CreateQuestionRequest → String → String → Float → Handler Created
  unfolding embed_best_effort authored create_question question_body
  store_authored caller req norm hash confidence = do
    embedding ← embed_best_effort req.question
    at ← gets (λ (w : World). w.clock)
    id ←
        map_err failing
          (create_question (authored req norm hash confidence embedding at caller.claims.user_id))
    ev ← trying (find_expert id)
    sends 201 (created (question_body id "verified" ev))

  abbrev pub unless_known : Option Question → Handler Created → Handler Created
  unless_known none more = more
  unless_known (some existing) more = sends 409 (conflict existing.id)

  unfoldable pub questions_create : Identity → Option CreateQuestionRequest → Handler Created
  unfolding store_authored binds_create labeling_valid confidence_of normalize_question find_exact
  questions_create caller none = refuse invalid
  questions_create caller (some req) = do
    guard (binds_create req) invalid
    guard (labeling_valid req.choice_labeling) invalid
    guard (accepts (validate_draft req.question req.choices req.answers req.type)) invalid
    confidence ← accepted (confidence_of (pos 990000) req.confidence)
    let norm = normalize_question lower req.question
    let hash = hash_question sha256_hex norm
    existing ← map_err failing (find_exact hash)
    unless_known existing (store_authored caller req norm hash confidence)
