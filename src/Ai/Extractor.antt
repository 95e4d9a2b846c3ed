-- ===== src/Ai/Extractor.antt =====
-- internal/ai/extractor/schema.go and Extract of extractor.go.
pub mod Choices
use coeus.Prelude.{
  ℕ, suc, ◌+◌, String, Char, code, concat, Bool, true, false, ◌&&◌, Option, none, some, Result, ok,
  err, List, map, ℤ, leb, str_eq, rune, itoa, Outcome, ret, raise, after, settle, ◌>>=◌, ◌>>◌,
  map_err, attempt, guard, lift, not, if◌then◌else◌,
}
use mathlib.Core.List.{[], ◌∷◌}
use coeus.Domain.Types.{Bytes, Float}
use coeus.Domain.Errors.{GoError, plain, wrap}
use coeus.Storage.World.{World, Io, pure, throw, cancelled}
use coeus.Pipeline.Ports.{Answer, ExtractedQuestion, ExtractionError, ExtractResult, ctx_error}
use coeus.Ai.Fence.{strip_code_fence}

pub record AnswerDto : Type 0 where
  pub id : String
  pub value : String

pub record QuestionDto : Type 0 where
  pub number : ℤ
  pub question : String
  pub choices : List String
  pub answers : List AnswerDto
  pub confidence : Float
  pub explanation : String
  pub tags : List String
  pub image_context : String

pub record ExtractionErrorDto : Type 0 where
  pub code : String
  pub message : String
  pub details : String
  pub questions_extracted : ℤ
  pub questions_expected : ℤ

pub record ExtractionResponse : Type 0 where
  pub questions : List QuestionDto
  pub error : Option ExtractionErrorDto

-- id[0] >= '0' && id[0] <= '9', the bytes of ASCII
abbrev starts_with_digit : String → Bool
starts_with_digit String.[] = false
starts_with_digit (String.◌∷◌ c s) = leb b'0' (code c) && leb (code c) b'9'

unfoldable pub detect_choice_labeling : List AnswerDto → String
detect_choice_labeling [] = "letter"
detect_choice_labeling (a ∷ answers) = if starts_with_digit a.id then "number" else "letter"

unfoldable pub label_for : ℕ → String → String
unfolding itoa
label_for i labeling =
    if str_eq labeling "number" then itoa (i + 1) else (String.◌∷◌ (rune (b'A' + i)) String.[])

-- The loop, from the index `i` on
unfoldable pub assign_from : ℕ → List String → String → List Answer
unfolding label_for
assign_from i [] labeling = []
assign_from i (text ∷ choices) labeling =
    record { id = label_for i labeling; text = text } ∷ assign_from (suc i) choices labeling

unfoldable pub assign_choice_ids : List String → String → List Answer
unfolding assign_from
assign_choice_ids choices labeling = assign_from 0 choices labeling

abbrev answer_of : AnswerDto → Answer
answer_of a = record { id = a.id; text = a.value }

unfoldable pub map_answers : List AnswerDto → List Answer
map_answers answers = map answer_of answers

unfoldable pub extracted_question : QuestionDto → ExtractedQuestion
unfolding assign_choice_ids detect_choice_labeling map_answers
extracted_question q = record {
  number = q.number;
  text = q.question;
  choices = assign_choice_ids q.choices (detect_choice_labeling q.answers);
  answers = map_answers q.answers;
  confidence = q.confidence;
  tags = q.tags;
  image_context = q.image_context;
}

abbrev extraction_error : Option ExtractionErrorDto → Option ExtractionError
extraction_error none = none
extraction_error (some e) = some (record { code = e.code; detail = e.message })

unfoldable pub to_pipeline : ExtractionResponse → ExtractResult
unfolding extracted_question
to_pipeline r = record {
  questions = map extracted_question r.questions;
  error = extraction_error r.error;
}

-- The content of the first choice of a completion
abbrev pub first_choice : String → List String → Io String
first_choice context [] = throw (plain (concat context ": empty choices"))
first_choice context (raw ∷ more) = pure raw

abbrev keep_result : {A : Type 0} → Result GoError A → Io A
keep_result (ok a) = pure a
keep_result (err e) = throw e

-- defer: the clean-up runs however the body ends, and its error is only logged.
abbrev pub deferred : {A : Type 0} → Io (Unit {0}) → Io A → Io A
deferred clean_up body = do r ← attempt body; attempt clean_up; keep_result r

-- `upload` is uploadImage, `delete_file` is deleteFile, `complete` asks the model about a file and
-- answers with the contents of its choices, `unmarshal` is json.Unmarshal.
module _ (upload : Bytes → String → Io String) (delete_file : String → Io (Unit {0}))
    (complete : String → Io (List String))
    (unmarshal : String → Result GoError ExtractionResponse) where
  unfoldable pub extract_uploaded : String → Io ExtractResult
  unfolding strip_code_fence to_pipeline
  extract_uploaded file_id = do
    choices ← map_err (wrap "extract") (complete file_id)
    raw ← first_choice "extract" choices
    resp ← map_err (wrap "extract: parse model JSON") (lift (unmarshal (strip_code_fence raw)))
    pure (to_pipeline resp)

  unfoldable pub extract : Bytes → String → Io ExtractResult
  unfolding cancelled extract_uploaded
  extract image mime = do
    stop ← cancelled
    guard (not stop) (wrap "extract" ctx_error)
    file_id ← map_err (wrap "extract: upload") (upload image mime)
    deferred (delete_file file_id) (extract_uploaded file_id)
