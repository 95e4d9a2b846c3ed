-- ===== src/Storage/Sessions.antt =====
-- internal/storage/postgres/session_repo.go over the sessions table.
use coeus.Prelude.{
  newest_first, ℕ, ◌+◌, ◌^◌, Bool, Option, none, some, List, [], ◌∷◌, ◌++◌, ℤ, pos, negsuc, ◌==◌,
  ltb, any, find, select, update, take, drop, if◌then◌else◌, ◌>>=◌, ◌>>◌, map_err, guard,
}
use coeus.Domain.Types.{Uuid, Session}
use coeus.Domain.Errors.{domain, no_rows, pg, wrap, err_not_found, is_no_rows}
use coeus.Storage.World.{Db, Io, pure, throw, query, reading, writing, fresh_id, now}

abbrev pub with_sessions : (List Session → List Session) → Db → Db
with_sessions f db = record db { sessions = f db.sessions }

abbrev pub is_session : Uuid → Session → Bool
is_session id s = s.id == id

-- CHECK (duration_seconds > 0), and the sum of two int4; no negative buffer_seconds is bound.
unfoldable pub insert_session : Uuid → ℕ → ℕ → Io Session
insert_session user_id duration buffer = do
  known ← reading (λ db. any (λ u. u.id == user_id) db.users)
  guard known (pg "23503" "violates foreign key constraint")
  guard (ltb (duration + buffer) (2 ^ 31)) (pg "22003" "integer out of range")
  guard (ltb 0 duration) (pg "23514" "violates check constraint")
  id ← fresh_id
  at ← now
  let s : Session = record {
    id = id;
    user_id = user_id;
    duration_seconds = duration;
    buffer_seconds = buffer;
    started_at = at;
    expires_at = some (at + (duration + buffer));
    status = "open";
  }
  writing (with_sessions (λ ss. ss ++ s ∷ []))
  pure s

unfoldable pub create_session : Uuid → ℕ → ℕ → Io Session
unfolding insert_session
create_session user_id duration buffer =
    map_err (wrap "create session") (query (insert_session user_id duration buffer))

abbrev pub one_session : Option Session → Io Session
one_session none = throw no_rows
one_session (some s) = pure s

unfoldable pub find_session : Uuid → Io Session
find_session id =
    map_err
      (λ e.
        if is_no_rows e then wrap "find session" (domain err_not_found) else wrap "find session" e)
      (query (do row ← reading (λ db. find (is_session id) db.sessions); one_session row))

-- LIMIT and OFFSET; a negative one is an error of the database.
abbrev pub window : {A : Type 0} → ℤ → ℤ → List A → Io (List A)
window (pos limit) (pos offset) rows = pure (take limit (drop offset rows))
window (negsuc n) offset rows = throw (pg "2201W" "LIMIT must not be negative")
window (pos n) (negsuc m) rows = throw (pg "2201X" "OFFSET must not be negative")

unfoldable pub list_sessions : Uuid → ℤ → ℤ → Io (List Session)
unfolding newest_first
list_sessions user_id limit offset = map_err (wrap "list sessions") (
    query (do
      rows ←
          reading (λ db.
            newest_first (λ s. s.started_at) (select (λ s. s.user_id == user_id) db.sessions))
      window limit offset rows))

abbrev pub shut : Session → Session
shut s = record s { status = "closed" }

-- Exec, and the test of RowsAffected
unfoldable pub close_session : Uuid → Io (Unit {0})
close_session id = do
  hit ← map_err (wrap "close session") (
      query (do
        hit ← reading (λ db. any (is_session id) db.sessions)
        writing (with_sessions (update (is_session id) shut))
        pure hit))
  guard hit (wrap "close session" (domain err_not_found))
