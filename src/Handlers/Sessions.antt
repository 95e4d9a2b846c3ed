-- ===== src/Handlers/Sessions.antt =====
-- internal/httpapi/handlers/sessions.go.
pub mod Owner
pub mod Pages
use coeus.Prelude.{
  ℕ, String, Bool, true, false, Option, none, some, Result, ok, err, List, pos, ◌==◌, ◌>>=◌, ◌>>◌,
  map, map_err, attempt, guard, ret, raise,
}
use coeus.Domain.Types.{Uuid, Session}
use coeus.Domain.Errors.{GoError}
use coeus.Dto.Responses.{CreateSessionRequest, SessionResponse, SessionDetailResponse}
use coeus.Storage.World.{World, Io}
use coeus.Storage.Sessions.{create_session, find_session, list_sessions, close_session}
use coeus.Storage.Images.{count_by_session}
use coeus.Http.Guards.{Identity, hidden, answering}
use coeus.Http.Auth.{failing}
use coeus.Handlers.Responses.{Sent, Handler, trying, sends, refuse, invalid, bind_session}
use coeus.Handlers.Paging.{Paging, parse_paging}

abbrev session_response : Session → SessionResponse
session_response s = record { id = s.id; expires_at = s.expires_at; status = s.status }

abbrev pub created : Identity → Option (ℕ × ℕ) → Handler SessionResponse
created caller none = refuse invalid
created caller (some (duration, buffer)) = do
  sess ← map_err failing (create_session caller.claims.user_id duration buffer)
  sends 201 (session_response sess)

unfoldable pub sessions_create : Identity → Option CreateSessionRequest → Handler SessionResponse
unfolding bind_session
sessions_create caller none = refuse invalid
sessions_create caller (some req) = created caller (bind_session req)

pub record SessionListResponse : Type 0 where
  pub sessions : List SessionResponse
  pub page : ℕ
  pub per_page : ℕ

-- Its paging is written out in the source, with the limits of parsePaging.
unfoldable pub sessions_list :
    Identity → Option String → Option String → Handler SessionListResponse
unfolding parse_paging
sessions_list caller page per_page =
    let p = parse_paging page per_page in
    (do
      sessions ← map_err failing (list_sessions caller.claims.user_id (pos p.per_page) p.offset)
      sends 200 (record {
        sessions = map session_response sessions;
        page = p.page;
        per_page = p.per_page;
      }))

-- if err != nil { slog.Warn(…) }: the count stays 0
abbrev count_or_zero : Result GoError ℕ → ℕ
count_or_zero (ok n) = n
count_or_zero (err e) = 0

unfoldable pub sessions_get : Identity → Uuid → Handler SessionDetailResponse
sessions_get caller id = do
  sess ← answering hidden (find_session id)
  guard (sess.user_id == caller.claims.user_id) hidden
  images ← trying (count_by_session id)
  sends 200 (record {
    session = session_response sess;
    duration_seconds = sess.duration_seconds;
    buffer_seconds = sess.buffer_seconds;
    started_at = sess.started_at;
    image_count = count_or_zero images;
  })

unfoldable pub sessions_close : Identity → Uuid → Handler (Unit {0})
sessions_close caller id = do
  sess ← answering hidden (find_session id)
  guard (sess.user_id == caller.claims.user_id) hidden
  map_err failing (close_session id)
  sends 204 tt
