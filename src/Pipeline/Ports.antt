-- ===== src/Pipeline/Ports.antt =====
-- internal/pipeline/ports.go. The services behind the ports are remote: each is a function of what
-- it is asked, and the extractor of the attempt's number too.
use coeus.Prelude.{ℕ, ℤ, Char, String, Option, Result, List, [], ◌∷◌}
use coeus.Domain.Types.{Bytes, Float, Vector}
use coeus.Domain.Errors.{GoError, plain}

pub record Answer : Type 0 where
  pub id : String
  pub text : String

pub record ExtractedQuestion : Type 0 where
  pub number : ℤ
  pub text : String
  pub choices : List Answer
  pub answers : List Answer
  pub confidence : Float
  pub tags : List String
  pub image_context : String

pub record ExtractionError : Type 0 where
  pub code : String
  pub detail : String

pub record ExtractResult : Type 0 where
  pub questions : List ExtractedQuestion
  pub error : Option ExtractionError

pub record VerifiedQuestion : Type 0 where
  pub index : ℤ
  pub answers : List Answer
  pub confidence : Float
  pub explanation : String

pub record VerifyResult : Type 0 where
  pub results : List VerifiedQuestion
  pub report : String

-- `error_json` is json.Marshal of the code and detail of a failure.
pub record Services : Type 0 where
  pub enhance : Bytes → String → Result GoError Bytes
  pub extract : ℕ → Bytes → String → Result GoError ExtractResult
  pub verify : List ExtractedQuestion → Result GoError VerifyResult
  pub embed : Option (String → Result GoError Vector)
  pub distance : Vector → Vector → Float
  pub lower : Char → Char
  pub sha256_hex : String → String
  pub show_uuid : ℕ → String
  pub error_json : String → String → String

-- internal/config PipelineConfig
pub record PipelineConfig : Type 0 where
  pub extract_max_attempts : ℕ
  pub semantic_threshold : Float
  pub reaper_interval : ℤ
  pub stale_threshold : ℕ
  pub max_queue_attempts : ℕ

abbrev pub ctx_error : GoError
ctx_error = plain "context canceled"

abbrev pub answer_texts : List Answer → List String
answer_texts [] = []
answer_texts (a ∷ rest) = a.text ∷ answer_texts rest

abbrev pub answer_ids : List Answer → List String
answer_ids [] = []
answer_ids (a ∷ rest) = a.id ∷ answer_ids rest
