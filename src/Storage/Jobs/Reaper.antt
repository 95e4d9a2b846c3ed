-- ===== src/Storage/Jobs/Reaper.antt =====
-- ReaperReclaim of internal/storage/postgres/job_queue.go.
use coeus.Prelude.{
  ℕ, ◌+◌, ◌≡◌, refl, true, false, List, [], ◌∷◌, arith, Bool-cases, inl, inr, count, update, OnRet,
  ltb, leb, if◌then◌else◌,
}
use coeus.Domain.Types.{Instant, Job}
use coeus.Storage.World.{World, query}
use coeus.Storage.Jobs.{stale, exhausted, reclaimable, expire, reset, reaper_reclaim}

-- One pass of the reaper over the rows.
abbrev reaped : Instant → ℕ → ℕ → List Job → List Job
reaped at threshold most js =
    update (reclaimable at threshold most) reset
      (update (exhausted at threshold most) (expire at) js)

module _ (at : Instant) (threshold most : ℕ) where
  abbrev expired_job : Job → Job
  expired_job j = if exhausted at threshold most j then expire at j else j

  abbrev reaped_job : Job → Job
  reaped_job j =
      if reclaimable at threshold most (expired_job j) then reset (expired_job j) else expired_job j

  reaped_job-stale : (j : Job) → stale at threshold (reaped_job j) ≡ false
  reaped_job-stale j = elim (Bool-cases (stale at threshold j)) [
    | inr fresh ↦ rw (fresh, fresh) fresh
    | inl old ↦ elim (Bool-cases (leb most j.attempts)) [
      | inl full ↦ rw (old, full) refl
      | inr room ↦ rw (old, room, old) (ground arith)
    ]
  ]

  reaped-stale : (js : List Job) → count (stale at threshold) (reaped at threshold most js) ≡ 0
  reaped-stale [] = refl
  reaped-stale (j ∷ js) = rw (reaped_job-stale j) (reaped-stale js)

  reaped-count :
      (js : List Job)
      → count (exhausted at threshold most) js
          + count
              (reclaimable at threshold most)
              (update (exhausted at threshold most) (expire at) js)
        ≡ count (stale at threshold) js
  reaped-count [] = refl
  reaped-count (j ∷ js) = elim (Bool-cases (stale at threshold j)) [
    | inr fresh ↦ rw (fresh, fresh) (reaped-count js)
    | inl old ↦ elim (Bool-cases (leb most j.attempts)) [
      | inl full ↦ rw (old, full) (omega (arith, reaped-count js))
      | inr room ↦
          let less : ltb j.attempts most ≡ true = ground arith in
          rw (old, room, old, less) (omega (arith, reaped-count js))
    ]
  ]

-- A reaper pass that succeeds leaves no processing job older than the threshold, and each job
-- that was so is counted once, as reclaimed or as failed.
pub reaper_reclaim-stale :
    (threshold most : ℕ) (w : World)
    → OnRet
        (λ n w'.
          (count (stale w.clock threshold) w'.db.jobs ≡ 0)
          × (n.0 + n.1 ≡ count (stale w.clock threshold) w.db.jobs))
        (reaper_reclaim threshold most w)
unfolding reaper_reclaim query
reaper_reclaim-stale threshold most w = ground (
  arith,
  reaped-stale w.clock threshold most w.db.jobs,
  reaped-count w.clock threshold most w.db.jobs,
)
