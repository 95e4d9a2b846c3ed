-- ===== src/Dto/Responses.antt =====
-- internal/httpapi/dto/question.go, requests.go and responses.go: the shapes on the wire.
use coeus.Prelude.{ℕ, ℤ, String, Bool, Option, List}
use coeus.Domain.Types.{Uuid, Instant, Float}
use coeus.Dto.Labels.{AnswerRef}

pub record UserQuestionResponse : Type 0 where
  pub id : Uuid
  pub number : ℤ
  pub question : String
  pub type : String
  pub multiple_correct : Bool
  pub choices : List String
  pub answers : List AnswerRef
  pub status : String
  pub confidence : Float

pub record ExpertQuestionResponse : Type 0 where
  pub id : Uuid
  pub number : ℤ
  pub question : String
  pub multiple_correct : Bool
  pub choices : List String
  pub answers : List String
  pub choice_labeling : String
  pub type : String
  pub confidence : Float
  pub explanation : String
  pub tags : List String
  pub status : String
  pub image_id : Option Uuid
  pub has_verification_report : Bool
  pub verified_at : Option Instant
  pub verified_by : Option Uuid

pub record CreateSessionRequest : Type 0 where
  pub duration_seconds : ℤ
  pub buffer_seconds : ℤ

pub record UpdateQuestionRequest : Type 0 where
  pub status : String
  pub type : String
  pub choices : List String
  pub answers : List String
  pub explanation : String
  pub tags : List String
  pub confidence : Option Float

pub record CreateQuestionRequest : Type 0 where
  pub question : String
  pub type : String
  pub choices : List String
  pub answers : List String
  pub choice_labeling : String
  pub explanation : String
  pub tags : List String
  pub confidence : Option Float

pub record UpdateUserRequest : Type 0 where
  pub email : String
  pub role : String
  pub active : Bool

pub record SessionResponse : Type 0 where
  pub id : Uuid
  pub expires_at : Option Instant
  pub status : String

pub record SessionDetailResponse : Type 0 where
  pub session : SessionResponse
  pub duration_seconds : ℕ
  pub buffer_seconds : ℕ
  pub started_at : Instant
  pub image_count : ℕ

pub record ImageUploadResponse : Type 0 where
  pub image_id : Uuid
  pub job_id : Uuid

pub record ImageResponse : Type 0 where
  pub id : Uuid
  pub mime : String
  pub width : ℕ
  pub height : ℕ
  pub job_status : String
  pub created_at : Instant

pub record UserResponse : Type 0 where
  pub id : Uuid
  pub email : String
  pub role : String
  pub active : Bool
  pub created_at : Instant

pub record ImportRowError : Type 0 where
  pub row : ℕ
  pub message : String

pub record ImportReportResponse : Type 0 where
  pub total_rows : ℕ
  pub created : ℕ
  pub updated : ℕ
  pub failed : ℕ
  pub errors : List ImportRowError
