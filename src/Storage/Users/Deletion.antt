-- ===== src/Storage/Users/Deletion.antt =====
-- Delete of internal/storage/postgres/user_repo.go.
use coeus.Prelude.{
  Bool, not, ◌&&◌, Option, none, some, List, map, ◌==◌, any, select, if◌then◌else◌, ◌>>=◌, ◌>>◌,
  map_err, guard,
}
use coeus.Domain.Types.{Uuid, Session, Question}
use coeus.Domain.Errors.{domain, wrap, err_not_found, err_self_forbidden, is_no_rows}
use coeus.Storage.World.{Db, Io, pure, query, writing, transaction, begin}
use coeus.Storage.Users.{Spelling, is_caller, has_id, active_admin, find_row, last_admin_guard}

-- DELETE FROM users, with the sessions, images, links and jobs that cascade from it, and
-- verified_by SET NULL.
abbrev owned : List Session → Uuid → Uuid → Bool
owned sessions user_id session_id = any (λ s. s.id == session_id && s.user_id == user_id) sessions

abbrev owned_image : Db → Uuid → Uuid → Bool
owned_image db user_id image_id =
    any (λ i. i.id == image_id && owned db.sessions user_id i.session_id) db.images

abbrev disown : Uuid → Option Uuid → Option Uuid
disown id none = none
disown id (some v) = if v == id then none else some v

unfoldable pub remove_user : Uuid → Db → Db
remove_user id db = record db {
  users = select (λ u. not (has_id id u)) db.users;
  sessions = select (λ s. not (s.user_id == id)) db.sessions;
  images = select (λ i. not (owned db.sessions id i.session_id)) db.images;
  session_questions =
      select (λ l. not (owned db.sessions id l.session_id) && not (owned_image db id l.image_id))
        db.session_questions;
  jobs =
      select (λ j. not (owned db.sessions id j.session_id) && not (owned_image db id j.image_id))
        db.jobs;
  questions =
      map (λ (q : Question). record q { verified_by = disown id q.verified_by }) db.questions;
}

unfoldable pub delete_tx : Uuid → Spelling → Io Unit
unfolding begin last_admin_guard remove_user
delete_tx id who = do
  map_err (wrap "begin delete user") begin
  cur ←
      map_err
        (λ e.
          if is_no_rows e
          then wrap "delete user" (domain err_not_found)
          else wrap "delete user select" e)
        (query (find_row (has_id id)))
  guard (not (is_caller who)) (wrap "delete user" (domain err_self_forbidden))
  last_admin_guard "delete user" (active_admin cur)
  map_err (wrap "delete user exec") (query (writing (remove_user id)))
  map_err (wrap "commit delete user") (query (pure tt))

unfoldable pub delete_user : Uuid → Spelling → Io Unit
unfolding delete_tx transaction
delete_user id who = transaction (delete_tx id who)
