-- ===== src/Http/Guards/Window.antt =====
-- Whom SessionWindow of internal/httpapi/middleware.go lets pass.
use coeus.Prelude.{
  ℕ, ◌≤◌, ◌≡◌, refl, String, true, false, none, some, find, arith, Outcome, ret, raise, ◌==◌,
  ==_iff, str_eq, eq_iff, Bool-cases, Option-cases, inl, inr, ◌⊎◌,
}
use coeus.Domain.Types.{Uuid, Session}
use coeus.Storage.World.{World, query}
use coeus.Storage.Sessions.{find_session, is_session}
use coeus.Http.Guards.{Reply, hidden, gone, expired, session_window}

-- The verdict on a request of a user for a session.
pub data Verdict (user_id session_id : Uuid) (w : World)
    : Outcome Reply World Session → Type 0 where
  passes :
      (s : Session) (t : ℕ) (w' : World)
      → find (is_session session_id) w.db.sessions ≡ some s
      → s.user_id ≡ user_id
      → s.status ≡ "open"
      → s.expires_at ≡ some t
      → w.clock ≤ t
      → w'.db ≡ w.db
      → Verdict user_id session_id w (ret s w')
  unknown :
      (w' : World)
      → find (is_session session_id) w.db.sessions ≡ none
      → w'.db ≡ w.db
      → Verdict user_id session_id w (raise hidden w')
  unreachable :
      (e : String) (w' : World)
      → w.faults w.trips ≡ some e
      → w'.db ≡ w.db
      → Verdict user_id session_id w (raise hidden w')
  foreign :
      (s : Session) (w' : World)
      → find (is_session session_id) w.db.sessions ≡ some s
      → (s.user_id == user_id) ≡ false
      → w'.db ≡ w.db
      → Verdict user_id session_id w (raise hidden w')
  over :
      (s : Session) (w' : World)
      → find (is_session session_id) w.db.sessions ≡ some s
      → s.user_id ≡ user_id
      → ((str_eq s.status "open" ≡ false) ⊎ (expired w.clock s.expires_at ≡ true))
      → w'.db ≡ w.db
      → Verdict user_id session_id w (raise gone w')

-- A request for a session passes exactly where the session is the user's own, open and not past its
-- end. For a session that is missing, unreadable or another's the reply is the same 404, and for one
-- that is closed or past its end it is 410. Nothing is changed.
pub session_window-Verdict :
    (user_id session_id : Uuid) (w : World)
    → Verdict user_id session_id w (session_window user_id session_id w)
unfolding session_window find_session query
session_window-Verdict user_id session_id w = elim (Option-cases (w.faults w.trips)) [
  | inr (e, bad) ↦ rw bad (unreachable e _ bad refl)
  | inl good ↦ elim (Option-cases (find (is_session session_id) w.db.sessions)) [
    | inl missing ↦ rw (good, missing) (unknown _ missing refl)
    | inr (s, found) ↦ elim (Bool-cases (s.user_id == user_id)) [
      | inr other ↦ rw (good, found, other) (foreign s _ found other refl)
      | inl own ↦ elim (Bool-cases (str_eq s.status "open")) [
        | inr shut ↦
            rw (good, found, own, shut) (over s _ found ((==_iff _ _).0 own) (inl shut) refl)
        | inl open_now ↦ elim (Bool-cases (expired w.clock s.expires_at)) [
          | inl late ↦
              rw (good, found, own, open_now, late)
                (over s _ found ((==_iff _ _).0 own) (inr late) refl)
          | inr early ↦ elim (Option-cases s.expires_at) [
            | inl unread ↦ absurd (ground arith)
            | inr (t, ends) ↦
                rw (good, found, own, open_now, early)
                  (passes s t _ found ((==_iff _ _).0 own) ((eq_iff s.status "open").0 open_now)
                    ends (ground arith) refl)
          ]
        ]
      ]
    ]
  ]
]
