-- ===== src/Http/Routes.antt =====
-- The routes of internal/httpapi/server.go, each with the guards that stand before its handler.
pub mod Entitled
pub mod Refusals
use coeus.Prelude.{
  ℕ, String, Bool, true, false, Option, none, some, Result, List, [], ◌∷◌, Exec, ◌>>=◌, ◌>>◌, guard,
}
use coeus.Domain.Types.{Uuid, Session}
use coeus.Domain.Errors.{GoError}
use coeus.Storage.World.{World}
use coeus.Http.Tokens.{Claims}
use coeus.Http.Guards.{
  Reply, Identity, hidden, auth_middleware, role_guard, session_window, passing,
}

pub data Route : Type 0 where
  healthz readyz register login refresh profile : Route
  session_create session_list session_get session_close image_upload image_list : Route
  user_list user_update user_delete user_reset_password : Route
  question_list question_get question_create question_upload question_update question_delete : Route
  image_get verification_report_get : Route

pub data RouteGuard : Type 0 where
  authenticated in_window : RouteGuard
  roles : List String → RouteGuard

abbrev signed_in : List RouteGuard
signed_in = authenticated ∷ []

abbrev by_admin : List RouteGuard
by_admin = authenticated ∷ roles ("admin" ∷ []) ∷ []

abbrev by_expert : List RouteGuard
by_expert = authenticated ∷ roles ("expert" ∷ "admin" ∷ []) ∷ []

abbrev windowed : List RouteGuard
windowed = authenticated ∷ in_window ∷ []

unfoldable pub guards : Route → List RouteGuard
guards healthz = []
guards readyz = []
guards register = []
guards login = []
guards refresh = signed_in
guards profile = signed_in
guards session_create = signed_in
guards session_list = signed_in
guards session_get = signed_in
guards session_close = signed_in
guards image_upload = windowed
guards image_list = windowed
guards user_list = by_admin
guards user_update = by_admin
guards user_delete = by_admin
guards user_reset_password = by_admin
guards question_list = signed_in
guards question_get = signed_in
guards question_create = by_expert
guards question_upload = by_expert
guards question_update = by_expert
guards question_delete = by_expert
guards image_get = by_expert
guards verification_report_get = by_expert

-- What the guards have set in the request's context
pub record Context : Type 0 where
  pub identity : Option Identity
  pub session : Option Session

abbrev pub fresh_context : Context
fresh_context = record { identity = none; session = none }

-- After AuthMiddleware
abbrev pub of_user : Identity → Context
of_user i = record { identity = some i; session = none }

abbrev pub role_of : Option Identity → Option String
role_of none = none
role_of (some i) = some i.claims.role

-- An empty "user_id" owns no session.
abbrev pub in_window_of : Option Identity → Uuid → Exec Reply World Context
in_window_of none session_id = do guard false hidden; passing fresh_context
in_window_of (some i) session_id = do
  s ← session_window i.claims.user_id session_id
  passing (record { identity = some i; session = some s })

module _ (verify : String → Result GoError Claims) (header : String) (session_id : Uuid) where
  abbrev pub pass : RouteGuard → Context → Exec Reply World Context
  pass authenticated ctx = do i ← auth_middleware verify header; passing (of_user i)
  pass (roles allowed) ctx = do role_guard allowed (role_of ctx.identity); passing ctx
  pass in_window ctx = in_window_of ctx.identity session_id

  unfoldable pub pass_all : List RouteGuard → Context → Exec Reply World Context
  unfolding auth_middleware role_guard session_window
  pass_all [] ctx = passing ctx
  pass_all (g ∷ gs) ctx = do ctx' ← pass g ctx; pass_all gs ctx'

  -- The guards of a route, in the order of the groups that it stands in.
  unfoldable pub admit : Route → Exec Reply World Context
  unfolding pass_all guards
  admit route = pass_all (guards route) fresh_context
