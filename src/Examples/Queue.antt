-- ===== src/Examples/Queue.antt =====
-- The job queue.
use coeus.Prelude.{◌+◌, ◌≡◌, refl, some, List, [], ◌∷◌, arith, final, get_elem?, count, OnRet}
use coeus.Storage.Jobs.{claim, reaper_reclaim, stale}
use coeus.Storage.Jobs.Rows.{UniqueJobs}
use coeus.Storage.Jobs.Lifecycle.{
  QueueStep, claims, completes, reaps, take_steps, take_steps-settled,
}
use coeus.Storage.Jobs.Claim.{Claimed, claim-Claimed}
use coeus.Storage.Jobs.Reaper.{reaper_reclaim-stale}
use coeus.Examples.Data.{done_job, jobs, world}

abbrev steps : List QueueStep
steps = claims ∷ completes 31 ∷ reaps 10 3 ∷ []

jobs-UniqueJobs : UniqueJobs jobs
jobs-UniqueJobs = ((ground arith, (ground arith, tt)), ((ground arith, tt), (tt, tt)))

take_steps-settled_example : get_elem? (final (take_steps steps world)).db.jobs 0 ≡ some done_job
take_steps-settled_example = take_steps-settled steps world 0 done_job jobs-UniqueJobs refl refl

claim-Claimed_example : OnRet (λ found w'. Claimed 100 jobs found w'.db.jobs) (claim world)
claim-Claimed_example = claim-Claimed world

reaper_reclaim-stale_example :
    OnRet
      (λ n w'. (count (stale 100 10) w'.db.jobs ≡ 0) × (n.0 + n.1 ≡ count (stale 100 10) jobs))
      (reaper_reclaim 10 3 world)
reaper_reclaim-stale_example = reaper_reclaim-stale 10 3 world
