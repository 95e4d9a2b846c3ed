-- ===== src/Storage/Users.antt =====
-- internal/storage/postgres/user_repo.go over the tables, with the constraints of the migrations.
mod Steps
mod Committed
pub mod Deletion
pub mod Passwords
pub mod Admins
pub mod Accounts
pub mod Listing
use coeus.Prelude.{
  ℕ, ◌+◌, ◌%◌, ◌^◌, ◌<◌, String, Bool, true, false, not, ◌&&◌, ◌||◌, Option, none, some, List, [],
  ◌∷◌, ◌++◌, map, ◌==◌, ltb, str_eq, any, count, find, select, update, if◌then◌else◌, ◌>>=◌, ◌>>◌,
  map_err, guard, gets,
}
use coeus.Domain.Types.{Uuid, Instant, Session, Image, Job, Question}
use coeus.Domain.Errors.{
  GoError, domain, plain, no_rows, pg, wrap, err_not_found, err_duplicate, err_self_forbidden,
  err_last_admin, is_no_rows, is_unique_violation,
}
use coeus.Storage.World.{
  Db, User, Link, World, Io, pure, throw, query, reading, writing, fresh_id, now, transaction,
  begin,
}

pub record UserUpdate : Type 0 where
  pub email : String
  pub role : String
  pub active : Bool

-- `id == callerID` compares the text of the path with the token's, and the database reads the uuid in
-- the text: one uuid has several spellings. A method takes the uuid, and the two texts behind it.
pub record Spelling : Type 0 where
  pub id : String
  pub caller_id : String

abbrev pub has_id : Uuid → User → Bool
has_id id u = u.id == id

-- CHECK (role IN ('user', 'expert', 'admin'))
pub role_check : String → Bool
role_check r = str_eq r "user" || (str_eq r "expert" || str_eq r "admin")

-- WHERE role = 'admin' AND active = true
unfoldable pub active_admin : User → Bool
active_admin u = str_eq u.role "admin" && u.active

abbrev pub with_users : (List User → List User) → Db → Db
with_users f db = record db { users = f db.users }

-- QueryRow(…).Scan(…) over the rows that match
abbrev pub one_row : {A : Type 0} → Option A → Io A
one_row none = throw no_rows
one_row (some a) = pure a

-- SELECT … WHERE …, scanned
abbrev pub find_row : (User → Bool) → Io User
find_row p = do row ← reading (λ db. find p db.users); one_row row

unfoldable pub insert_user : String → String → String → Io User
unfolding role_check
insert_user email hash role = do
  taken ← reading (λ db. any (λ u. str_eq u.email email) db.users)
  guard (not taken) (pg "23505" "duplicate key value violates unique constraint")
  guard (role_check role) (pg "23514" "new row violates check constraint")
  id ← fresh_id
  at ← now
  let u : User = record {
    id = id;
    email = email;
    password_hash = hash;
    role = role;
    active = true;
    token_version = 0;
    created_at = at;
  }
  writing (with_users (λ us. us ++ u ∷ []))
  pure u

unfoldable pub create : String → String → String → Io User
unfolding insert_user
create email hash role =
    map_err
      (λ e.
        if is_unique_violation e
        then wrap "create user" (domain err_duplicate)
        else wrap "create user" e)
      (query (insert_user email hash role))

unfoldable pub find_by_email : String → Io User
find_by_email email =
    map_err
      (λ e.
        if is_no_rows e
        then wrap "find user by email" (domain err_not_found)
        else wrap "find user by email" e)
      (query (find_row (λ u. str_eq u.email email)))

unfoldable pub find_by_id : Uuid → Io User
find_by_id id =
    map_err
      (λ e.
        if is_no_rows e
        then wrap "find user by id" (domain err_not_found)
        else wrap "find user by id" e)
      (query (find_row (has_id id)))

abbrev set_user : UserUpdate → ℕ → User → User
set_user upd version u = record u {
  email = upd.email;
  role = upd.role;
  active = upd.active;
  token_version = version;
}

-- UPDATE users SET … WHERE id = $5 RETURNING …
unfoldable pub update_row : Uuid → UserUpdate → ℕ → Io User
unfolding role_check
update_row id upd version = do
  taken ← reading (λ db. any (λ u. str_eq u.email upd.email && not (u.id == id)) db.users)
  guard (not taken) (pg "23505" "duplicate key value violates unique constraint")
  guard (role_check upd.role) (pg "23514" "new row violates check constraint")
  writing (with_users (update (has_id id) (set_user upd version)))
  find_row (has_id id)

-- The count behind the guard of the last active admin, and the guard.
unfoldable pub last_admin_guard : String → Bool → Io Unit
unfolding active_admin
last_admin_guard context losing =
    if losing
    then (do
      admins ← map_err (wrap "count admins") (query (reading (λ db. count active_admin db.users)))
      guard (ltb 1 admins) (wrap context (domain err_last_admin)))
    else pure tt

unfoldable pub email_guard : Uuid → String → Bool → Io Unit
email_guard id email changed =
    if changed
    then (do
      exists ←
          map_err (wrap "check email unique")
            (query (reading (λ db. any (λ u. str_eq u.email email && not (u.id == id)) db.users)))
      guard (not exists) (wrap "update user" (domain err_duplicate)))
    else pure tt

-- `newVersion++` on an int64, as a bit pattern
abbrev bump : ℕ → ℕ
bump version = (version + 1) % 2 ^ 64

abbrev role_changed : User → UserUpdate → Bool
role_changed cur upd = not (str_eq cur.role upd.role)

abbrev active_changed : User → UserUpdate → Bool
active_changed cur upd = not (if cur.active then upd.active else not upd.active)

abbrev pub is_caller : Spelling → Bool
is_caller who = str_eq who.id who.caller_id

abbrev self_change : Spelling → User → UserUpdate → Bool
self_change who cur upd = is_caller who && (role_changed cur upd || active_changed cur upd)

abbrev losing : User → UserUpdate → Bool
losing cur upd = active_admin cur && (not (str_eq upd.role "admin") || not upd.active)

abbrev email_changed : User → UserUpdate → Bool
email_changed cur upd = not (str_eq cur.email upd.email)

unfoldable pub new_version : User → UserUpdate → ℕ
new_version cur upd =
    if role_changed cur upd || active_changed cur upd
    then bump cur.token_version
    else cur.token_version

unfoldable pub update_tx : Uuid → UserUpdate → Spelling → Io User
update_tx id upd who = do
  map_err (wrap "begin update user") begin
  cur ←
      map_err
        (λ e.
          if is_no_rows e
          then wrap "update user" (domain err_not_found)
          else wrap "update user select" e)
        (query (find_row (has_id id)))
  guard (not (self_change who cur upd)) (wrap "update user" (domain err_self_forbidden))
  last_admin_guard "update user" (losing cur upd)
  email_guard id upd.email (email_changed cur upd)
  updated ←
      map_err
        (λ e.
          if is_unique_violation e
          then wrap "update user" (domain err_duplicate)
          else wrap "update user exec" e)
        (query (update_row id upd (new_version cur upd)))
  map_err (wrap "commit update user") (query (pure tt))
  pure updated

unfoldable pub update_user : Uuid → UserUpdate → Spelling → Io User
unfolding update_tx transaction begin update_row last_admin_guard email_guard
update_user id upd who = transaction (update_tx id upd who)
