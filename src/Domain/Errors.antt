-- ===== src/Domain/Errors.antt =====
-- internal/domain/errors.go, and the shapes of the Go errors that reach it. A driver's error is
-- `no_rows` (pgx.ErrNoRows), `pg` with its SQLSTATE, or `plain`; `wrap` is fmt.Errorf("…: %w").
use coeus.Prelude.{
  ℕ, String, concat, Bool, true, false, ◌&&◌, ◌||◌, Option, none, some, str_eq, if◌then◌else◌,
}

pub record DomainError : Type 0 where
  pub code : String
  pub message : String

pub data GoError : Type 0 where
  domain : DomainError → GoError
  plain : String → GoError
  no_rows : GoError
  pg : String → String → GoError
  wrap : String → GoError → GoError

abbrev new_error : String → String → DomainError
new_error c m = record { code = c; message = m }

abbrev pub err_not_found : DomainError
err_not_found = new_error "not_found" "resource not found"

abbrev pub err_session_expired : DomainError
err_session_expired = new_error "session_expired" "session has expired"

abbrev pub err_duplicate : DomainError
err_duplicate = new_error "duplicate" "resource already exists"

abbrev pub err_validation : DomainError
err_validation = new_error "validation" "invalid input"

abbrev pub err_unauthorized : DomainError
err_unauthorized = new_error "unauthorized" "authentication required"

abbrev pub err_forbidden : DomainError
err_forbidden = new_error "forbidden" "insufficient role"

abbrev pub err_ai_unavailable : DomainError
err_ai_unavailable = new_error "ai_unavailable" "AI service unavailable"

abbrev pub err_self_forbidden : DomainError
err_self_forbidden = new_error "self_forbidden" "admin cannot change their own role or active state"

abbrev pub err_last_admin : DomainError
err_last_admin = new_error "last_admin" "operation would remove the last active admin"

-- `e.Error()`
unfoldable pub error_text : GoError → String
error_text (domain e) = concat e.code (concat ": " e.message)
error_text (plain s) = s
error_text no_rows = "no rows in result set"
error_text (pg state s) = s
error_text (wrap context e) = concat context (concat ": " (error_text e))

-- errors.As(err, *domain.Error)
unfoldable pub as_domain : GoError → Option DomainError
as_domain (domain e) = some e
as_domain (wrap context e) = as_domain e
as_domain _ = none

-- errors.Is(err, sentinel). The sentinels are told apart by code and message, and no other
-- error of the program has both of one.
unfoldable pub is_domain : DomainError → GoError → Bool
is_domain s (domain e) = str_eq e.code s.code && str_eq e.message s.message
is_domain s (wrap context e) = is_domain s e
is_domain s _ = false

-- errors.Is(err, pgx.ErrNoRows)
unfoldable pub is_no_rows : GoError → Bool
is_no_rows no_rows = true
is_no_rows (wrap context e) = is_no_rows e
is_no_rows _ = false

-- SQLSTATE 23505
unfoldable pub is_unique_violation : GoError → Bool
is_unique_violation (pg state s) = str_eq state "23505"
is_unique_violation (wrap context e) = is_unique_violation e
is_unique_violation _ = false

unfoldable pub status_of_code : String → ℕ
status_of_code code =
    if str_eq code "not_found"
    then 404
    else if str_eq code "session_expired"
    then 410
    else if str_eq code "duplicate"
    then 409
    else if str_eq code "self_forbidden"
        || str_eq code "last_admin"
        || str_eq code "question_in_use"
    then 409
    else if str_eq code "validation"
    then 400
    else if str_eq code "unauthorized"
    then 401
    else if str_eq code "forbidden"
    then 403
    else if str_eq code "ai_unavailable"
    then 503
    else 500

unfoldable pub http_status : GoError → ℕ
unfolding status_of_code as_domain
http_status err = elim (as_domain err) [ none ↦ 500 | some e ↦ status_of_code e.code ]
