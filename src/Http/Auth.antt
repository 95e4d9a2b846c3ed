-- ===== src/Http/Auth.antt =====
-- Register, Login and Refresh of internal/httpapi/handlers/auth.go. A request that does not
-- bind is `none`; bcrypt's two functions and the signing of tokens are arguments.
pub mod Login
use coeus.Prelude.{
  ℕ, String, Bool, true, false, Option, none, some, Result, ok, err, Exec, ret, raise, ◌>>=◌, ◌>>◌,
  map_err, guard, gets, if◌then◌else◌,
}
use coeus.Domain.Types.{Uuid}
use coeus.Domain.Errors.{
  GoError, DomainError, as_domain, is_domain, err_validation, err_duplicate, err_not_found,
  err_unauthorized,
}
use coeus.Storage.World.{User, World}
use coeus.Storage.Users.{create, find_by_email}
use coeus.Http.Tokens.{Claims, JwtManager, issue}
use coeus.Http.Guards.{Reply, Identity, unauthorized, passing}

abbrev pub internal_error : DomainError
internal_error = record { code = "internal"; message = "internal server error" }

-- errorResponse
abbrev pub error_response : GoError → DomainError
error_response e = elim (as_domain e) [ none ↦ internal_error | some d ↦ d ]

abbrev pub failing : GoError → Reply
failing e = record { status = 500; error = error_response e }

abbrev pub answer : {A : Type 0} → Result GoError A → Exec Reply World A
answer (ok a) w = ret a w
answer (err e) w = raise (failing e) w

pub record Credentials : Type 0 where
  pub email : String
  pub password : String

pub record AccountResponse : Type 0 where
  pub id : Uuid
  pub email : String
  pub role : String

pub record AuthResponse : Type 0 where
  pub token : String
  pub role : String

abbrev bad_request : Reply
bad_request = record { status = 400; error = err_validation }

abbrev pub unbound : {A : Type 0} → Exec Reply World A
unbound w = raise bad_request w

abbrev create_failed : GoError → Reply
create_failed e =
    if is_domain err_duplicate e then record { status = 409; error = err_duplicate } else failing e

abbrev find_failed : GoError → Reply
find_failed e = if is_domain err_not_found e then unauthorized else failing e

abbrev pub replying :
    (e : GoError → Reply) → {A : Type 0} → Exec GoError World A → Exec Reply World A
replying f m = map_err f m

unfoldable pub register :
    (String → Result GoError String) → Option Credentials → Exec Reply World AccountResponse
register hash_password none = unbound
register hash_password (some req) = do
  hash ← answer (hash_password req.password)
  user ← replying create_failed (create req.email hash "user")
  passing (record { id = user.id; email = user.email; role = user.role })

module _ (signed_string : Claims → String → Result GoError String) (mgr : JwtManager) where
  abbrev pub token_of : User → Exec Reply World AuthResponse
  token_of user = do
    at ← gets (λ (w : World). w.clock)
    token ← answer (issue signed_string mgr at user.id user.role user.active user.token_version)
    passing (record { token = token; role = user.role })

  unfoldable pub login :
      (String → String → Bool) → Option Credentials → Exec Reply World AuthResponse
  unfolding issue
  login verify_password none = unbound
  login verify_password (some req) = do
    user ← replying find_failed (find_by_email req.email)
    guard (verify_password user.password_hash req.password) unauthorized
    guard user.active unauthorized
    token_of user

  -- The user that AuthMiddleware has set
  unfoldable pub refresh : Identity → Exec Reply World AuthResponse
  unfolding issue
  refresh i = token_of i.user
