-- ===== src/Handlers/Users.antt =====
-- internal/httpapi/handlers/users.go, and Profile of auth.go.
use coeus.Prelude.{
  ℕ, String, Char, Bool, Option, none, some, List, pos, ◌>>=◌, ◌>>◌, map, map_err, guard, str_eq,
  if◌then◌else◌,
}
use coeus.Domain.Types.{Uuid}
use coeus.Domain.Errors.{err_not_found}
use coeus.Dto.Responses.{UserResponse, UpdateUserRequest}
use coeus.Storage.World.{User, Io}
use coeus.Storage.Users.{Spelling, update_user}
use coeus.Storage.Users.Deletion.{delete_user}
use coeus.Storage.Users.Passwords.{reset_password}
use coeus.Storage.Users.Listing.{UserFilter, list_users}
use coeus.Http.Guards.{Identity}
use coeus.Http.Auth.{failing}
use coeus.Handlers.Responses.{Handler, sends, refuse, invalid, by_status, binds_user}
use coeus.Handlers.Paging.{parse_user_paging}

unfoldable pub user_to_response : User → UserResponse
user_to_response u = record {
  id = u.id;
  email = u.email;
  role = u.role;
  active = u.active;
  created_at = u.created_at;
}

-- The keys of the query that List reads
pub record UserQuery : Type 0 where
  pub page : Option String
  pub per_page : Option String
  pub role : String
  pub active : String
  pub q : String

pub record UserListResponse : Type 0 where
  pub users : List UserResponse
  pub page : ℕ
  pub per_page : ℕ

abbrev unless_empty : {A : Type 0} → String → A → Option A
unless_empty s a = if str_eq s "" then none else some a

unfoldable pub user_filter : UserQuery → UserFilter
user_filter query = record {
  role = unless_empty query.role query.role;
  active = unless_empty query.active (str_eq query.active "true");
  search = unless_empty query.q query.q;
}

module _ (lower : Char → Char) (json : List String → String) where
  unfoldable pub users_list : UserQuery → Handler UserListResponse
  unfolding user_filter parse_user_paging user_to_response
  users_list query =
      let p = parse_user_paging query.page query.per_page in
      (do
        users ←
            map_err failing (list_users lower json (user_filter query) (pos p.per_page) p.offset)
        sends 200
            (record { users = map user_to_response users; page = p.page; per_page = p.per_page }))

-- c.Param("id"): a text, and the uuid that the database reads in it
pub record PathId : Type 0 where
  pub text : String
  pub value : Uuid

-- `show_uuid` is the text of an id in the caller's token.
abbrev pub spelling : (Uuid → String) → Identity → PathId → Spelling
spelling show_uuid caller id = record { id = id.text; caller_id = show_uuid caller.claims.user_id }

unfoldable pub users_update :
    (String → Bool)
    → (Uuid → String)
    → Identity
    → PathId
    → Option UpdateUserRequest
    → Handler UserResponse
unfolding by_status user_to_response binds_user
users_update is_email show_uuid caller id none = refuse invalid
users_update is_email show_uuid caller id (some req) = do
  guard (binds_user is_email req) invalid
  updated ← map_err by_status (
      update_user id.value (record { email = req.email; role = req.role; active = req.active })
        (spelling show_uuid caller id))
  sends 200 (user_to_response updated)

unfoldable pub users_delete : (Uuid → String) → Identity → PathId → Handler (Unit {0})
unfolding by_status
users_delete show_uuid caller id = do
  map_err by_status (delete_user id.value (spelling show_uuid caller id))
  sends 204 tt

-- The response holds the new password.
unfoldable pub users_reset_password : Io String → (String → Io String) → Uuid → Handler String
unfolding by_status
users_reset_password generate hash id = do
  plaintext ← map_err by_status (reset_password generate hash id)
  sends 200 plaintext

-- The key "user" of the context: `none` where no guard has set it.
unfoldable pub profile : Option User → Handler UserResponse
unfolding user_to_response
profile none = refuse (record { status = 404; error = err_not_found })
profile (some user) = sends 200 (user_to_response user)
