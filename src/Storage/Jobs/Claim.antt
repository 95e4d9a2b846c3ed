-- ===== src/Storage/Jobs/Claim.antt =====
-- Claim of internal/storage/postgres/job_queue.go.
use coeus.Prelude.{
  ◌+◌, ◌≡◌, Option, none, some, List, arith, count, update, OnRet, OnRet-weaken, Option-cases, inl,
  inr,
}
use coeus.Domain.Types.{Instant, Job}
use coeus.Storage.World.{World, query, begin, transaction}
use coeus.Storage.Jobs.{is_job, in_status, start, returned, oldest, claim, claim_commit}
use coeus.Storage.Jobs.Rows.{Oldest, oldest-none, oldest-Oldest}

-- What a claim at an instant makes of the rows.
pub data Claimed (at : Instant) (js : List Job) : Option Job → List Job → Type 0 where
  nothing : count (in_status "pending") js ≡ 0 → Claimed at js none js
  taken :
      (k : Job)
      → Oldest js k
      → Claimed at js
          (some (record k {
            status = "processing";
            attempts = k.attempts + 1;
            started_at = some at;
            last_error = "";
            finished_at = none;
          }))
          (update
            (is_job k.id)
            (λ j. record j {
              status = "processing";
              attempts = j.attempts + 1;
              started_at = some at;
            })
            js)

module _ (w : World) where
  abbrev Done : Option Job → World → Type 0
  Done found w' = Claimed w.clock w.db.jobs found w'.db.jobs

  claim-idle :
      oldest w.db.jobs ≡ none
      → OnRet (λ found w'. (found ≡ none) × (w'.db.jobs ≡ w.db.jobs)) (claim w)
  unfolding claim transaction claim_commit begin query
  claim-idle e = ground arith

  claim-taken :
      (k : Job)
      → oldest w.db.jobs ≡ some k
      → OnRet
          (λ found w'.
            (found ≡ some (returned (start w.clock k)))
            × (w'.db.jobs ≡ update (is_job k.id) (start w.clock) w.db.jobs))
          (claim w)
  unfolding claim transaction claim_commit begin query
  claim-taken k e = ground arith

  -- A claim that succeeds takes a pending job than which none was queued earlier, sets its row to
  -- processing with one attempt more and the time as its start, and leaves the other rows; it returns
  -- that row, without its last error and its end. Where it takes none, no job is pending and no row
  -- has changed.
  pub claim-Claimed : OnRet Done (claim w)
  claim-Claimed = elim (Option-cases (oldest w.db.jobs)) [
    | inl empty ↦
        OnRet-weaken _ Done _ (claim-idle empty)
          λ found w' (e, f). rw (e, f) (nothing (oldest-none w.db.jobs empty))
    | inr (k, found) ↦
        OnRet-weaken _ Done _ (claim-taken k found)
          λ r w' (e, f). rw (e, f) (taken k (oldest-Oldest w.db.jobs k found))
  ]
