-- ===== src/Storage/Users/Listing.antt =====
-- List of internal/storage/postgres/user_repo.go. A nil filter is `none`.
use coeus.Prelude.{
  newest_first, String, Char, Bool, true, false, not, ◌&&◌, ◌||◌, Option, none, some, List, ℤ,
  str_eq, select, ◌>>=◌, map_err,
}
use coeus.Domain.Errors.{wrap}
use coeus.Storage.World.{User, Io, query, reading}
use coeus.Storage.Sessions.{window}
use coeus.Storage.Questions.Views.{ilike}

pub record UserFilter : Type 0 where
  pub role : Option String
  pub active : Option Bool
  pub search : Option String

abbrev has_role : Option String → User → Bool
has_role none u = true
has_role (some r) u = str_eq u.role r

abbrev has_flag : Option Bool → User → Bool
has_flag none u = true
has_flag (some true) u = u.active
has_flag (some false) u = not u.active

module _ (lower : Char → Char) (json : List String → String) where
  abbrev has_email : Option String → User → Bool
  has_email none u = true
  has_email (some s) u = str_eq s "" || ilike lower json u.email s

  abbrev pub passes_filter : UserFilter → User → Bool
  passes_filter f u = has_role f.role u && (has_flag f.active u && has_email f.search u)

  unfoldable pub list_users : UserFilter → ℤ → ℤ → Io (List User)
  unfolding newest_first
  list_users f limit offset = map_err (wrap "list users") (
      query (do
        rows ← reading (λ db. newest_first (λ u. u.created_at) (select (passes_filter f) db.users))
        window limit offset rows))
