-- ===== src/Handlers/Sessions/Owner.antt =====
-- Whose sessions Close of internal/httpapi/handlers/sessions.go closes.
use coeus.Prelude.{
  ◌+◌, ◌≡◌, refl, String, false, none, some, find, update, Outcome, ret, raise, ◌==◌, ==_iff,
  Bool-cases, Option-cases, inl, inr, ◌⊎◌, find-any,
}
use coeus.Domain.Types.{Uuid, Session}
use coeus.Domain.Errors.{plain, wrap}
use coeus.Storage.World.{World, query}
use coeus.Storage.Sessions.{find_session, close_session, is_session}
use coeus.Http.Guards.{Reply, Identity, hidden}
use coeus.Http.Auth.{failing}
use coeus.Handlers.Responses.{Sent}
use coeus.Handlers.Sessions.{sessions_close}

-- The session is not the caller's to see: it is missing, another's, or the database does not answer.
abbrev pub Unseen : Uuid → Uuid → World → Type 0
Unseen user_id id w =
    (find (is_session id) w.db.sessions ≡ none)
    ⊎ (((s : Session) × (find (is_session id) w.db.sessions ≡ some s)
          × ((s.user_id == user_id) ≡ false))
        ⊎ ((e : String) × (w.faults w.trips ≡ some e)))

-- How a request of a user to close a session ends
pub data Closing (user_id id : Uuid) (w : World)
    : Outcome Reply World (Sent (Unit {0})) → Type 0 where
  closed :
      (s : Session) (w' : World)
      → find (is_session id) w.db.sessions ≡ some s
      → s.user_id ≡ user_id
      → w'.db ≡ record w.db {
        sessions = update (λ s. s.id == id) (λ s. record s { status = "closed" }) w.db.sessions;
      }
      → Closing user_id id w (ret (record { status = 204; body = tt }) w')
  unseen :
      (w' : World) → Unseen user_id id w → w'.db ≡ w.db → Closing user_id id w (raise hidden w')
  failed :
      (s : Session) (e : String) (w' : World)
      → find (is_session id) w.db.sessions ≡ some s
      → s.user_id ≡ user_id
      → w.faults (w.trips + 1) ≡ some e
      → w'.db ≡ w.db
      → Closing user_id id w (raise (failing (wrap "close session" (plain e))) w')

-- A request to close a session sets the status of its row to "closed", and nothing else, exactly
-- where it is the caller's own and the database answers both round trips. For a session that is
-- missing, unreadable or another's the reply is the same 404, a failing update is a 500, and neither
-- changes anything.
pub sessions_close-Closing :
    (caller : Identity) (id : Uuid) (w : World)
    → Closing caller.claims.user_id id w (sessions_close caller id w)
unfolding sessions_close find_session close_session query
sessions_close-Closing caller id w = elim (Option-cases (w.faults w.trips)) [
  | inr (e, bad) ↦ rw bad (unseen _ (inr (inr (e, bad))) refl)
  | inl good ↦ elim (Option-cases (find (is_session id) w.db.sessions)) [
    | inl missing ↦ rw (good, missing) (unseen _ (inl missing) refl)
    | inr (s, found) ↦ elim (Bool-cases (s.user_id == caller.claims.user_id)) [
      | inr other ↦ rw (good, found, other) (unseen _ (inr (inl (s, found, other))) refl)
      | inl own ↦ elim (Option-cases (w.faults (w.trips + 1))) [
        | inr (e, bad) ↦
            rw (good, found, own, bad) (failed s e _ found ((==_iff _ _).0 own) bad refl)
        | inl fine ↦
            rw (good, found, own, fine, find-any (is_session id) w.db.sessions s found)
              (closed s _ found ((==_iff _ _).0 own) refl)
      ]
    ]
  ]
]
