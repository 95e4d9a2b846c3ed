-- ===== src/Domain/Types.antt =====
-- The records of internal/domain/question.go and internal/domain/session.go.
-- A uuid is a number, since it is only compared; an instant is a number of seconds; a float64 is
-- an integer count of millionths. A nil slice and an empty one are the same list.
use coeus.Prelude.{
  ℕ, String, Char, code, Bool, ◌&&◌, Option, List, [], ◌∷◌, length, any, ◌+◌, ltb, leb,
  if◌then◌else◌, ℤ,
}

abbrev pub Uuid : Type 0
Uuid = ℕ

abbrev pub Instant : Type 0
Instant = ℕ

abbrev pub Float : Type 0
Float = ℤ

abbrev pub Bytes : Type 0
Bytes = List ℕ

abbrev pub Vector : Type 0
Vector = List Float

pub record Question : Type 0 where
  pub id : Uuid
  pub number : ℤ
  pub text : String
  pub text_norm : String
  pub text_hash : String
  pub choices : List String
  pub answers : List String
  pub choice_labeling : String
  pub type : String
  pub confidence : Float
  pub explanation : String
  pub embedding : Option Vector
  pub status : String
  pub verified_at : Option Instant
  pub verified_by : Option Uuid
  pub tags : List String

pub record QuestionUpdate : Type 0 where
  pub status : String
  pub choices : List String
  pub answers : List String
  pub explanation : String
  pub tags : List String
  pub confidence : Float
  pub type : String

unfoldable pub multiple_correct : Question → Bool
multiple_correct q = ltb 1 (length q.answers)

-- `expires_at` is what time.Parse makes of the stored text, `none` where it refuses.
pub record Session : Type 0 where
  pub id : Uuid
  pub user_id : Uuid
  pub duration_seconds : ℕ
  pub buffer_seconds : ℕ
  pub started_at : Instant
  pub expires_at : Option Instant
  pub status : String

-- `original` and `enhanced` are `none` where the bytes were cleaned or never stored.
pub record Image : Type 0 where
  pub id : Uuid
  pub session_id : Uuid
  pub original : Option Bytes
  pub enhanced : Option Bytes
  pub mime : String
  pub width : ℕ
  pub height : ℕ
  pub verification_report : Option String
  pub extraction_error : Option String
  pub created_at : Instant

pub record Job : Type 0 where
  pub id : Uuid
  pub image_id : Uuid
  pub session_id : Uuid
  pub status : String
  pub attempts : ℕ
  pub last_error : String
  pub queued_at : Instant
  pub started_at : Option Instant
  pub finished_at : Option Instant

-- unicode.IsDigit: the digits of each script are ten code points from its zero.
abbrev digit_zeros : List ℕ
digit_zeros =
    0x30 ∷ 0x660 ∷ 0x6F0 ∷ 0x7C0 ∷ 0x966 ∷ 0x9E6 ∷ 0xA66 ∷ 0xAE6 ∷ 0xB66 ∷ 0xBE6 ∷ 0xC66 ∷ 0xCE6
    ∷ 0xD66 ∷ 0xDE6 ∷ 0xE50 ∷ 0xED0 ∷ 0xF20 ∷ 0x1040 ∷ 0x1090 ∷ 0x17E0 ∷ 0x1810 ∷ 0x1946 ∷ 0x19D0
    ∷ 0x1A80 ∷ 0x1A90 ∷ 0x1B50 ∷ 0x1BB0 ∷ 0x1C40 ∷ 0x1C50 ∷ 0xA620 ∷ 0xA8D0 ∷ 0xA900 ∷ 0xA9D0
    ∷ 0xA9F0 ∷ 0xAA50 ∷ 0xABF0 ∷ 0xFF10 ∷ 0x104A0 ∷ 0x10D30 ∷ 0x11066 ∷ 0x110F0 ∷ 0x11136 ∷ 0x111D0
    ∷ 0x112F0 ∷ 0x11450 ∷ 0x114D0 ∷ 0x11650 ∷ 0x116C0 ∷ 0x11730 ∷ 0x118E0 ∷ 0x11950 ∷ 0x11C50
    ∷ 0x11D50 ∷ 0x11DA0 ∷ 0x11F50 ∷ 0x16A60 ∷ 0x16AC0 ∷ 0x16B50 ∷ 0x1D7CE ∷ 0x1D7D8 ∷ 0x1D7E2
    ∷ 0x1D7EC ∷ 0x1D7F6 ∷ 0x1E140 ∷ 0x1E2F0 ∷ 0x1E4F0 ∷ 0x1E950 ∷ 0x1FBF0 ∷ []

is_digit : Char → Bool
is_digit c = any (λ z. leb z (code c) && ltb (code c) (z + 10)) digit_zeros

unfoldable pub infer_choice_labeling : List String → String
unfolding is_digit
infer_choice_labeling [] = "letter"
infer_choice_labeling (String.[] ∷ ids) = infer_choice_labeling ids
infer_choice_labeling (String.◌∷◌ r s ∷ ids) = if is_digit r then "number" else "letter"

unfoldable pub infer_question_type : List String → String
infer_question_type [] = "free_response"
infer_question_type (c ∷ cs) = "multiple_choice"
