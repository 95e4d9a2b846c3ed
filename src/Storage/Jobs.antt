-- ===== src/Storage/Jobs.antt =====
-- internal/storage/postgres/job_queue.go over the jobs table. The threshold of the reaper is a
-- number of seconds.
pub mod Rows
pub mod Reaper
pub mod Lifecycle
pub mod Claim
use coeus.Prelude.{
  ℕ, suc, ◌+◌, ◌<◌, String, Bool, true, false, not, ◌&&◌, Option, none, some, List, [], ◌∷◌, ◌++◌,
  map, ◌==◌, ltb, leb, str_eq, any, count, find, select, update, if◌then◌else◌, ◌>>=◌, ◌>>◌,
  map_err, guard, ret,
}
use coeus.Domain.Types.{Uuid, Instant, Image, Session, Job}
use coeus.Domain.Errors.{GoError, plain, pg, wrap}
use coeus.Storage.World.{
  Db, World, Io, pure, throw, query, reading, writing, fresh_id, now, transaction, begin,
}

abbrev with_jobs : (List Job → List Job) → Db → Db
with_jobs f db = record db { jobs = f db.jobs }

abbrev pub is_job : Uuid → Job → Bool
is_job id j = j.id == id

abbrev pub in_status : String → Job → Bool
in_status s j = str_eq j.status s

unfoldable pub insert_job : Uuid → Uuid → Io Uuid
insert_job image_id session_id = do
  known ←
      reading
        (λ db. any (λ i. i.id == image_id) db.images && any (λ s. s.id == session_id) db.sessions)
  guard known (pg "23503" "violates foreign key constraint")
  id ← fresh_id
  at ← now
  let j : Job = record {
    id = id;
    image_id = image_id;
    session_id = session_id;
    status = "pending";
    attempts = 0;
    last_error = "";
    queued_at = at;
    started_at = none;
    finished_at = none;
  }
  writing (with_jobs (λ js. js ++ j ∷ []))
  pure id

-- The NOTIFY is another round trip, whose failure is ignored.
abbrev pub notify : Io (Unit {0})
notify w = ret tt (record w { trips = w.trips + 1 })

unfoldable pub enqueue : Uuid → Uuid → Io Uuid
unfolding insert_job
enqueue image_id session_id = do
  id ← map_err (wrap "enqueue job") (query (insert_job image_id session_id))
  notify
  pure id

-- ORDER BY queued_at LIMIT 1 over the pending rows
abbrev earlier : Job → Option Job → Job
earlier j none = j
earlier j (some k) = if leb j.queued_at k.queued_at then j else k

unfoldable pub oldest : List Job → Option Job
oldest [] = none
oldest (j ∷ js) =
    let rest = oldest js in if in_status "pending" j then some (earlier j rest) else rest

abbrev pub start : Instant → Job → Job
start at j = record j { status = "processing"; started_at = some at; attempts = j.attempts + 1 }

-- RETURNING leaves out two columns.
abbrev pub returned : Job → Job
returned j = record j { last_error = ""; finished_at = none }

abbrev pub take_job : Option Job → Io (Option Job)
take_job none = pure none
take_job (some j) = do
  at ← now
  writing (with_jobs (update (is_job j.id) (start at)))
  pure (some (returned (start at j)))

-- The UPDATE … RETURNING, and the commit where a row was taken.
unfoldable pub claim_commit : Option Job → Io (Option Job)
claim_commit none = pure none
claim_commit (some j) = do map_err (wrap "commit claim") (query (pure tt)); pure (some j)

unfoldable pub claim : Io (Option Job)
unfolding begin transaction oldest claim_commit
claim = transaction (do
  map_err (wrap "begin claim") begin
  found ← map_err (wrap "claim job") (query (do row ← reading (λ db. oldest db.jobs); take_job row))
  claim_commit found)

-- WHERE id = $1 AND status = 'processing'
abbrev pub running : Uuid → Job → Bool
running id j = is_job id j && in_status "processing" j

abbrev pub finish : Instant → Job → Job
finish at j = record j { status = "done"; finished_at = some at }

abbrev pub give_up : Instant → String → Job → Job
give_up at msg j = record j { status = "failed"; finished_at = some at; last_error = msg }

unfoldable pub complete : Uuid → Io (Unit {0})
complete id =
    map_err (wrap "complete job")
      (query (do at ← now; writing (with_jobs (update (running id) (finish at)))))

unfoldable pub fail : Uuid → String → Io (Unit {0})
fail id msg =
    map_err (wrap "fail job")
      (query (do at ← now; writing (with_jobs (update (running id) (give_up at msg)))))

-- status = 'processing' AND started_at < now() - threshold
abbrev started_before : Instant → ℕ → Option Instant → Bool
started_before at threshold none = false
started_before at threshold (some t) = ltb (t + threshold) at

abbrev pub stale : Instant → ℕ → Job → Bool
stale at threshold j = in_status "processing" j && started_before at threshold j.started_at

abbrev pub exhausted : Instant → ℕ → ℕ → Job → Bool
exhausted at threshold most j = stale at threshold j && leb most j.attempts

abbrev pub reclaimable : Instant → ℕ → ℕ → Job → Bool
reclaimable at threshold most j = stale at threshold j && ltb j.attempts most

abbrev pub expire : Instant → Job → Job
expire at j = record j { status = "failed"; finished_at = some at }

abbrev pub reset : Job → Job
reset j = record j { status = "pending"; started_at = none }

-- UPDATE …, with RowsAffected
abbrev update_jobs : (Instant → Job → Bool) → (Instant → Job → Job) → Io ℕ
update_jobs p f = do
  at ← now
  n ← reading (λ db. count (p at) db.jobs)
  writing (with_jobs (update (p at) (f at)))
  pure n

-- The result is (reclaimed, failed).
unfoldable pub reaper_reclaim : ℕ → ℕ → Io (ℕ × ℕ)
reaper_reclaim threshold most = do
  guard (not (ltb most 1)) (plain "reaper: maxAttempts must be >= 1")
  failed ←
      map_err (wrap "reaper fail") (query (update_jobs (λ at. exhausted at threshold most) expire))
  reclaimed ←
      map_err (wrap "reaper reclaim")
        (query (update_jobs (λ at. reclaimable at threshold most) (λ _. reset)))
  pure (reclaimed, failed)

-- ORDER BY queued_at DESC LIMIT 1 over the rows of an image
abbrev later : Job → Option Job → Job
later j none = j
later j (some k) = if ltb j.queued_at k.queued_at then k else j

pub newest : (Job → Bool) → List Job → Option Job
newest p [] = none
newest p (j ∷ js) = let rest = newest p js in if p j then some (later j rest) else rest

unfoldable pub find_by_image_id : Uuid → Io (Option Job)
unfolding newest
find_by_image_id image_id =
    map_err (wrap "find job by image")
      (query (reading (λ db. newest (λ j. j.image_id == image_id) db.jobs)))

-- One pair for each image of the session that has a job: the status of its newest one.
abbrev status_pair : Uuid → Option Job → List (Uuid × String)
status_pair image_id none = []
status_pair image_id (some j) = (image_id, j.status) ∷ []

pub job_statuses : Uuid → List Job → List Image → List (Uuid × String)
unfolding newest
job_statuses session_id jobs [] = []
job_statuses session_id jobs (i ∷ is) =
    status_pair i.id (newest (λ j. j.image_id == i.id && j.session_id == session_id) jobs)
    ++ job_statuses session_id jobs is

unfoldable pub find_job_statuses_by_session : Uuid → Io (List (Uuid × String))
unfolding job_statuses
find_job_statuses_by_session session_id =
    map_err (wrap "find job statuses by session")
      (query (reading (λ db. job_statuses session_id db.jobs db.images)))
