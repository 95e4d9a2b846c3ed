-- ===== src/Storage/World.antt =====
-- The tables of internal/storage/postgres/migrations, and what surrounds them: the clock, the
-- supply of new uuids, which of the coming round trips fail, and the caller's context.
-- `tags` and `question_tags` are one relation from a question to a tag's name. The columns
-- `updated_at` and the `created_at` of links are never read and are left out.
use coeus.Prelude.{
  ℕ, zero, suc, ◌+◌, String, Bool, true, false, Option, none, some, List, Outcome, ret, raise, Exec,
  ℤ,
}
use coeus.Domain.Types.{Uuid, Instant, Float, Question, Session, Image, Job}
use coeus.Domain.Errors.{GoError, plain}

-- internal/storage/ports.go
pub record User : Type 0 where
  pub id : Uuid
  pub email : String
  pub password_hash : String
  pub role : String
  pub active : Bool
  pub token_version : ℕ
  pub created_at : Instant

pub record Link : Type 0 where
  pub id : Uuid
  pub session_id : Uuid
  pub image_id : Uuid
  pub question_id : Uuid
  pub extracted_number : ℤ
  pub extracted_confidence : Float

pub record Db : Type 0 where
  pub users : List User
  pub sessions : List Session
  pub images : List Image
  pub questions : List Question
  pub question_tags : List (Uuid × String)
  pub session_questions : List Link
  pub jobs : List Job

-- `faults n` is the error of the n-th round trip, if it fails. `left` counts the looks at the
-- context that still find it alive; `none` is a context that is never cancelled.
pub record World : Type 0 where
  pub db : Db
  pub clock : Instant
  pub next_id : Uuid
  pub trips : ℕ
  pub faults : ℕ → Option String
  pub left : Option ℕ

abbrev pub Io : Type 0 → Type 0
Io A = Exec GoError World A

abbrev pub pure : {A : Type 0} → A → Io A
pure a w = ret a w

abbrev pub throw : {A : Type 0} → GoError → Io A
throw e w = raise e w

abbrev on_db : (Db → Db) → World → World
on_db f w = record w { db = f w.db }

abbrev pub trip : {A : Type 0} → Option String → Io A → Io A
trip none m w = m w
trip (some e) m w = raise (plain e) w

-- One round trip: it fails with nothing done, or runs its statement.
unfoldable pub query : {A : Type 0} → Io A → Io A
query m w = trip (w.faults w.trips) m (record w { trips = w.trips + 1 })

-- A statement that cannot fail by itself: it reads, or it writes.
abbrev pub reading : {A : Type 0} → (Db → A) → Io A
reading f w = ret (f w.db) w

abbrev pub writing : (Db → Db) → Io (Unit {0})
writing f w = ret tt (record w { db = f w.db })

abbrev pub fresh_id : Io Uuid
fresh_id w = ret w.next_id (record w { next_id = w.next_id + 1 })

abbrev pub now : Io Instant
now w = ret w.clock w

abbrev pub rollback : {A : Type 0} → Db → Outcome GoError World A → Outcome GoError World A
rollback before (ret a w) = ret a w
rollback before (raise e w) = raise e (record w { db = before })

-- Begin … defer Rollback: an error before the end of the block undoes its writes.
unfoldable pub transaction : {A : Type 0} → Io A → Io A
transaction m w = rollback w.db (m w)

-- tx.Begin and tx.Commit are round trips of their own.
unfoldable pub begin : Io (Unit {0})
unfolding query
begin = query (pure tt)

-- ctx.Err() != nil
abbrev pub spend : Option ℕ → Option ℕ
spend none = none
spend (some zero) = some zero
spend (some (suc n)) = some n

abbrev pub dead : Option ℕ → Bool
dead (some zero) = true
dead _ = false

unfoldable pub cancelled : Io Bool
cancelled w = ret (dead w.left) (record w { left = spend w.left })
