-- ===== src/Http/Guards.antt =====
-- AuthMiddleware, RoleGuard and SessionWindow of internal/httpapi/middleware.go. A guard ends the
-- request with a reply, or lets it pass with what it sets in the request's context.
pub mod Tokens
pub mod Void
pub mod Window
use coeus.Prelude.{
  ℕ, String, Bool, true, false, not, ◌&&◌, ◌||◌, Option, none, some, Result, ok, err, List, [], ◌∷◌,
  Exec, Outcome, ret, raise, ◌>>=◌, ◌>>◌, map_err, guard, lift, gets, ltb, ◌==◌, any, str_eq,
  has_prefix, drop_runes, if◌then◌else◌,
}
use coeus.Domain.Types.{Uuid, Instant, Session}
use coeus.Domain.Errors.{
  GoError, DomainError, err_unauthorized, err_forbidden, err_not_found, err_session_expired,
}
use coeus.Storage.World.{User, World, Io, now}
use coeus.Storage.Users.{find_by_id}
use coeus.Storage.Sessions.{find_session}
use coeus.Http.Tokens.{Claims}

-- The status, and the error that apiError writes.
pub record Reply : Type 0 where
  pub status : ℕ
  pub error : DomainError

abbrev pub unauthorized : Reply
unauthorized = record { status = 401; error = err_unauthorized }

abbrev pub forbidden : Reply
forbidden = record { status = 403; error = err_forbidden }

abbrev pub hidden : Reply
hidden = record { status = 404; error = err_not_found }

abbrev pub gone : Reply
gone = record { status = 410; error = err_session_expired }

-- The keys "claims" and "user"; "user_id" and "role" are fields of the claims.
pub record Identity : Type 0 where
  pub claims : Claims
  pub user : User

abbrev same_flag : Bool → Bool → Bool
same_flag true b = b
same_flag false b = not b

unfoldable pub token_valid : Claims → User → Bool
token_valid claims user =
    user.active
    && (str_eq claims.role user.role
        && (same_flag claims.active user.active && claims.token_version == user.token_version))

-- if err != nil { c.AbortWithStatusJSON(…) }
abbrev pub answering : {A : Type 0} → Reply → Io A → Exec Reply World A
answering reply m = map_err (λ _. reply) m

abbrev pub passing : {A : Type 0} → A → Exec Reply World A
passing a w = ret a w

abbrev from_result : Result GoError Claims → Exec Reply World Claims
from_result (ok c) w = ret c w
from_result (err e) w = raise unauthorized w

module _ (verify : String → Result GoError Claims) where
  unfoldable pub auth_middleware : String → Exec Reply World Identity
  unfolding token_valid
  auth_middleware header = do
    guard (not (str_eq header "" || not (has_prefix header "Bearer "))) unauthorized
    claims ← from_result (verify (drop_runes header "Bearer "))
    user ← answering unauthorized (find_by_id claims.user_id)
    guard (token_valid claims user) unauthorized
    passing (record { claims = claims; user = user })

unfoldable pub role_guard : List String → Option String → Exec Reply World (Unit {0})
role_guard allowed none = guard false forbidden
role_guard allowed (some role) = guard (any (λ a. str_eq role a) allowed) forbidden

-- time.Now().After(expires_at)
abbrev pub expired : Instant → Option Instant → Bool
expired at none = true
expired at (some t) = ltb t at

unfoldable pub session_window : Uuid → Uuid → Exec Reply World Session
session_window user_id session_id = do
  sess ← answering hidden (find_session session_id)
  guard (sess.user_id == user_id) hidden
  guard (str_eq sess.status "open") gone
  at ← gets (λ (w : World). w.clock)
  guard (not (expired at sess.expires_at)) gone
  passing sess
