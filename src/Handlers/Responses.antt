-- ===== src/Handlers/Responses.antt =====
-- What the handlers share: statuses, errors, and the tests that the binding tags of
-- internal/httpapi/dto/requests.go ask for.
use coeus.Prelude.{
  ℕ, suc, String, Bool, not, [], ◌∷◌, ◌&&◌, Option, none, some, List, ℤ, pos, Exec, Outcome, Result,
  ok, err, ret, raise, ltb, length, any, is_empty, str_eq, if◌then◌else◌,
}
use coeus.Domain.Errors.{GoError, is_domain, http_status, err_not_found, err_validation}
use coeus.Dto.Responses.{
  CreateSessionRequest, UpdateQuestionRequest, CreateQuestionRequest, UpdateUserRequest,
}
use coeus.Storage.World.{World, Io}
use coeus.Http.Guards.{Reply, hidden}
use coeus.Http.Auth.{error_response}

-- c.JSON(status, body), c.Status and c.Data
pub record Sent (A : Type 0) : Type 0 where
  pub status : ℕ
  pub body : A

abbrev pub Handler : Type 0 → Type 0
Handler A = Exec Reply World (Sent A)

abbrev pub sends : {A : Type 0} → ℕ → A → Handler A
sends status body w = ret (record { status = status; body = body }) w

abbrev pub refuse : {A : Type 0} → Reply → Exec Reply World A
refuse reply w = raise reply w

abbrev pub kept : {A : Type 0} → Outcome GoError World A → Outcome Reply World (Result GoError A)
kept (ret a w) = ret (ok a) w
kept (raise e w) = ret (err e) w

-- `x, err := m()`, for a handler that goes on where it fails
abbrev pub trying : {A : Type 0} → Io A → Exec Reply World (Result GoError A)
trying m w = kept (m w)

abbrev pub invalid : Reply
invalid = record { status = 400; error = err_validation }

-- c.JSON(domain.HTTPStatus(err), errorResponse(err))
unfoldable pub by_status : GoError → Reply
unfolding http_status
by_status e = record { status = http_status e; error = error_response e }

-- 404 for ErrNotFound, 500 for everything else
unfoldable pub missing_or_failed : GoError → Reply
missing_or_failed e =
    if is_domain err_not_found e then hidden else record { status = 500; error = error_response e }

-- The tags oneof and dive,required
abbrev pub one_of : List String → String → Bool
one_of names s = any (λ n. str_eq s n) names

abbrev pub none_empty : List String → Bool
none_empty xs = not (any is_empty xs)

abbrev lengths : ℤ → ℤ → Option (ℕ × ℕ)
lengths (pos (suc d)) (pos b) = some (suc d, b)
lengths _ _ = none

unfoldable pub bind_session : CreateSessionRequest → Option (ℕ × ℕ)
bind_session req = lengths req.duration_seconds req.buffer_seconds

unfoldable pub binds_update : UpdateQuestionRequest → Bool
binds_update req =
    one_of ("moderation" ∷ "verified" ∷ "error" ∷ []) req.status
    && (one_of ("multiple_choice" ∷ "free_response" ∷ []) req.type
        && (none_empty req.choices && (ltb 0 (length req.answers) && none_empty req.answers)))

unfoldable pub binds_create : CreateQuestionRequest → Bool
binds_create req =
    not (is_empty req.question)
    && (one_of ("multiple_choice" ∷ "free_response" ∷ []) req.type
        && (none_empty req.choices && ltb 0 (length req.answers)))

-- `is_email` is the validator's test of the tag email.
unfoldable pub binds_user : (String → Bool) → UpdateUserRequest → Bool
binds_user is_email req =
    not (is_empty req.email)
    && (is_email req.email && one_of ("user" ∷ "expert" ∷ "admin" ∷ []) req.role)
