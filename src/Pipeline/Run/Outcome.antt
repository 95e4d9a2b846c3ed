-- ===== src/Pipeline/Run/Outcome.antt =====
-- What Run of internal/pipeline/pipeline.go leaves of its job.
use coeus.Prelude.{
  ℕ, ◌≡◌, refl, String, false, none, List, arith, count, update, count-update, OnRet, OnRet-after,
  OnRet-always, Result, ok, err, final, attempt,
}
use coeus.Domain.Types.{Instant, Uuid, Job}
use coeus.Storage.World.{World, query, cancelled}
use coeus.Storage.Jobs.{running, finish, give_up, complete, fail}
use coeus.Domain.Errors.{GoError}
use coeus.Pipeline.Ports.{Services, PipelineConfig}
use coeus.Pipeline.Run.{execute, executed, finished, give_up_on, run}

module _ (id : Uuid) (at : Instant) (msg : String) (j : Job) where
  finished-idle : running id (finish at j) ≡ false
  finished-idle = ground arith

  failed-idle : running id (give_up at msg j) ≡ false
  failed-idle = ground arith

finish-running :
    (id : Uuid) (at : Instant) (js : List Job)
    → count (running id) (update (running id) (finish at) js) ≡ 0
finish-running id at js = count-update (running id) (finish at) (finished-idle id at "") js

give_up-running :
    (id : Uuid) (at : Instant) (msg : String) (js : List Job)
    → count (running id) (update (running id) (give_up at msg) js) ≡ 0
give_up-running id at msg js = count-update (running id) (give_up at msg) (failed-idle id at msg) js

complete-running :
    (id : Uuid) (w : World) → OnRet (λ _ w'. count (running id) w'.db.jobs ≡ 0) (complete id w)
unfolding complete query
complete-running id w = ground (arith, finish-running id w.clock w.db.jobs)

fail-running :
    (id : Uuid) (msg : String) (w : World)
    → w.faults w.trips ≡ none
    → count (running id) (final (fail id msg w)).db.jobs ≡ 0
unfolding fail query
fail-running id msg w good = ground (arith, give_up-running id w.clock msg w.db.jobs)

abbrev Idle : Job → World → Type 0
Idle job w = count (running job.id) w.db.jobs ≡ 0

raised :
    (job : Job) (msg : String) (e : GoError) (w : World)
    → OnRet (λ _ w'. Idle job w') (give_up_on job msg e w)
unfolding give_up_on cancelled
raised job msg e w = ground arith

failed :
    (job : Job) (msg : String) (e : GoError) (w : World)
    → w.left ≡ none
    → ((n : ℕ) → w.faults n ≡ none)
    → Idle job (final (give_up_on job msg e w))
unfolding give_up_on cancelled fail query
failed job msg e w alive good =
    ground (arith, good w.trips, give_up-running job.id w.clock msg w.db.jobs)

finished-running :
    (job : Job) (r : Result GoError (Unit {0})) (w : World)
    → (r ≡ ok tt → Idle job w)
    → OnRet (λ _ w'. Idle job w') (finished job r w)
finished-running job (ok _) w done = done refl
finished-running job (err e) w done = raised job _ e w

complete-Idle :
    (id : Uuid) (w : World)
    → OnRet (λ r w'. r ≡ ok tt → count (running id) w'.db.jobs ≡ 0) (attempt (complete id) w)
unfolding complete query
complete-Idle id w = ground (arith, finish-running id w.clock w.db.jobs)

executed-running :
    (job : Job) (r : Result GoError (Unit {0})) (w : World)
    → OnRet (λ _ w'. Idle job w') (executed job r w)
executed-running job (err e) w = raised job _ e w
executed-running job (ok _) w =
    OnRet-after (λ r w'. r ≡ ok tt → Idle job w') (λ _ w'. Idle job w')
      (attempt (complete job.id) w) (finished job) (complete-Idle job.id w) (finished-running job)

-- A run that returns without an error has left no row of its job in the state `processing`.
pub run-running :
    (svc : Services) (cfg : PipelineConfig) (job : Job) (w : World)
    → OnRet (λ _ w'. count (running job.id) w'.db.jobs ≡ 0) (run svc cfg job w)
unfolding run
run-running svc cfg job w =
    OnRet-after (λ _ _. Unit) (λ _ w'. Idle job w') (attempt (execute svc cfg job) w) (executed job)
      (OnRet-always _ (attempt (execute svc cfg job) w) (λ _ _. tt))
      (λ r w' _. executed-running job r w')

-- After the pipeline has worked on a job, well or not, a live context and a database that answers
-- are enough for the job to end: no row of it is left in the state `processing`.
pub executed-settles :
    (job : Job) (r : Result GoError (Unit {0})) (w : World)
    → w.left ≡ none
    → ((n : ℕ) → w.faults n ≡ none)
    → count (running job.id) (final (executed job r w)).db.jobs ≡ 0
unfolding complete query
executed-settles job (err e) w alive good = failed job _ e w alive good
executed-settles job (ok _) w alive good =
    ground (arith, good w.trips, finish-running job.id w.clock w.db.jobs)
