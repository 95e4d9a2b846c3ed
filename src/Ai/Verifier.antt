-- ===== src/Ai/Verifier.antt =====
-- internal/ai/verifier/schema.go and Verify of verifier.go.
use coeus.Prelude.{
  ℕ, suc, String, Char, not, Option, none, some, Result, List, [], ◌∷◌, map, length, ℤ, pos, leb,
  is_empty, map_runes, trim_space, ◌>>=◌, ◌>>◌, map_err, guard, lift, if◌then◌else◌,
}
use coeus.Domain.Types.{Float}
use coeus.Domain.Errors.{GoError, wrap}
use coeus.Storage.World.{Io, pure, cancelled}
use coeus.Pipeline.Ports.{
  Answer, ExtractedQuestion, VerifiedQuestion, VerifyResult, ctx_error, answer_texts,
}
use coeus.Ai.Extractor.{AnswerDto, QuestionDto, first_choice}
use coeus.Ai.Fence.{strip_code_fence}

pub record VerifiedQuestionDto : Type 0 where
  pub number : ℤ
  pub question : String
  pub choices : List String
  pub answers : List AnswerDto
  pub confidence : Float
  pub explanation : String
  pub tags : List String

pub record VerificationResponse : Type 0 where
  pub verification : String
  pub questions : List VerifiedQuestionDto

abbrev answer_dto : Answer → AnswerDto
answer_dto a = record { id = a.id; value = a.text }

unfoldable pub question_dto : ExtractedQuestion → QuestionDto
question_dto q = record {
  number = q.number;
  question = q.text;
  choices = answer_texts q.choices;
  answers = map answer_dto q.answers;
  confidence = q.confidence;
  explanation = "";
  tags = q.tags;
  image_context = q.image_context;
}

unfoldable pub from_pipeline : List ExtractedQuestion → List QuestionDto
unfolding question_dto
from_pipeline questions = map question_dto questions

abbrev answer_of : AnswerDto → Answer
answer_of a = record { id = a.id; text = a.value }

abbrev verified_question : ℕ → VerifiedQuestionDto → VerifiedQuestion
verified_question i q = record {
  index = pos i;
  answers = map answer_of q.answers;
  confidence = q.confidence;
  explanation = q.explanation;
}

-- The loop from the index `i` on, with its break
unfoldable pub results_from : ℕ → List VerifiedQuestionDto → ℕ → List VerifiedQuestion
results_from i [] count = []
results_from i (q ∷ qs) count =
    let rest = results_from (suc i) qs count in
    if leb count i then [] else verified_question i q ∷ rest

unfoldable pub to_verify_result : VerificationResponse → ℕ → VerifyResult
unfolding results_from
to_verify_result r count = record {
  results = results_from 0 r.questions count;
  report = r.verification;
}

-- The effort that New keeps, empty where the parameter is left out
unfoldable pub reasoning_effort : (Char → Char) → String → Option String
reasoning_effort lower effort =
    let e = map_runes lower (trim_space effort) in if is_empty e then none else some e

-- `marshal` and `unmarshal` are those of encoding/json, `complete` asks the model.
module _ (marshal : List QuestionDto → Result GoError String) (complete : String → Io (List String))
    (unmarshal : String → Result GoError VerificationResponse) where
  unfoldable pub verify_questions : List ExtractedQuestion → Io VerifyResult
  unfolding cancelled from_pipeline strip_code_fence to_verify_result
  verify_questions questions = do
    stop ← cancelled
    guard (not stop) (wrap "verify" ctx_error)
    payload ← map_err (wrap "verify: marshal input") (lift (marshal (from_pipeline questions)))
    choices ← map_err (wrap "verify") (complete payload)
    raw ← first_choice "verify" choices
    resp ← map_err (wrap "verify: parse model JSON") (lift (unmarshal (strip_code_fence raw)))
    pure (to_verify_result resp (length questions))
