-- ===== src/Pipeline/Worker.antt =====
-- internal/pipeline/worker.go: what one worker, the reaper and the start of the pool do, each by
-- itself. The connection that listens is an argument. A `select` between the context and a timer is
-- one look at the context; loops are on fuel, and `none` is a loop that still runs.
pub mod Looks
pub mod Stops
use coeus.Prelude.{
  ℕ, zero, suc, ◌*◌, Bool, true, false, Option, none, some, Result, ok, err, List, [], ◌∷◌, ◌++◌, ℤ,
  pos, ltb, ◌>>=◌, ◌>>◌, attempt, if◌then◌else◌,
}
use coeus.Domain.Types.{Job}
use coeus.Domain.Errors.{GoError}
use coeus.Storage.World.{Io, pure, cancelled}
use coeus.Storage.Jobs.{claim, reaper_reclaim}
use coeus.Pipeline.Ports.{PipelineConfig}

abbrev second : ℕ
second = 1_000_000_000

-- if backoff < 30s { backoff *= 2 }
unfoldable pub next_backoff : ℕ → ℕ
next_backoff backoff = if ltb backoff (30 * second) then backoff * 2 else backoff

unfoldable pub reset_backoff : Option Bool → ℕ → ℕ
reset_backoff (some true) backoff = second
reset_backoff _ backoff = backoff

-- if interval <= 0 { interval = 60s }, for the ticker
unfoldable pub ticker_interval : ℤ → ℕ
ticker_interval (pos (suc n)) = suc n
ticker_interval _ = 60 * second

-- `wait` is WaitForNotification up to its timeout; `is_timeout` tells an expired or a cancelled wait
-- from a lost connection.
module _ (run_job : Job → Io (Unit {0})) (wait : Io (Unit {0})) (is_timeout : GoError → Bool) where
  abbrev unless_lost : Bool → Io (Option Bool) → Io (Option Bool)
  unless_lost true more = more
  unless_lost false more = pure (some false)

  abbrev pub waited : Result GoError (Unit {0}) → Io (Option Bool) → Io (Option Bool)
  waited (ok _) more = more
  waited (err e) more = unless_lost (is_timeout e) more

  abbrev unless_done : Bool → Io (Option Bool) → Io (Option Bool)
  unless_done true more = pure (some true)
  unless_done false more = more

  -- One round behind the look at the context; `more` is the rest of the loop.
  abbrev pub claimed : Result GoError (Option Job) → Io (Option Bool) → Io (Option Bool)
  claimed (err e) more = do stop ← cancelled; unless_done stop more
  claimed (ok (some job)) more = do attempt (run_job job); more
  claimed (ok none) more = do how ← attempt wait; waited how more

  unfoldable pub claim_loop : ℕ → Io (Option Bool)
  unfolding cancelled claim
  claim_loop zero = pure none
  claim_loop (suc fuel) = do
    stop ← cancelled
    elim stop [
      | true ↦ pure (some true)
      | false ↦ (do r ← attempt claim; claimed r (claim_loop fuel))
    ]

  -- `listen` is Connect and LISTEN. The result is whether the context ended the session.
  abbrev pub connected : ℕ → Result GoError (Unit {0}) → Io (Option Bool)
  connected fuel (err e) = pure (some false)
  connected fuel (ok _) = claim_loop fuel

  unfoldable pub run_worker_session : Io (Unit {0}) → ℕ → Io (Option Bool)
  unfolding claim_loop
  run_worker_session listen fuel = do r ← attempt listen; connected fuel r

  -- The sessions of a worker, with the pauses between them: the list of the backoffs it waited.
  unfoldable pub worker : Io (Unit {0}) → ℕ → ℕ → ℕ → Io (List ℕ)
  unfolding run_worker_session next_backoff reset_backoff cancelled
  worker listen rounds zero backoff = pure []
  worker listen rounds (suc fuel) backoff = do
    stop ← cancelled
    elim stop [
      | true ↦ pure []
      | false ↦ (do
        clean ← run_worker_session listen rounds
        done ← cancelled
        elim done [
          | true ↦ pure []
          | false ↦ (do
            later ← worker listen rounds fuel (next_backoff (reset_backoff clean backoff))
            pure (reset_backoff clean backoff ∷ later))
        ])
    ]

-- runReaperOnce, and one tick of reaperLoop: an error is only logged.
unfoldable pub run_reaper_once : PipelineConfig → Io (Unit {0})
unfolding reaper_reclaim
run_reaper_once cfg = do
  attempt (reaper_reclaim cfg.stale_threshold cfg.max_queue_attempts)
  pure tt

unfoldable pub reaper_loop : PipelineConfig → ℕ → Io (Unit {0})
unfolding run_reaper_once cancelled
reaper_loop cfg zero = pure tt
reaper_loop cfg (suc ticks) = do
  stop ← cancelled
  elim stop [ true ↦ pure tt | false ↦ (do run_reaper_once cfg; reaper_loop cfg ticks) ]

pub data Goroutine : Type 0 where
  startup_reaper reaper : Goroutine
  consumer : ℕ → Goroutine

pub record WorkerPool : Type 0 where
  pub count : ℕ
  pub started : Bool
  pub cancellable : Bool

-- for i := 0; i < count; i++
unfoldable pub consumers : ℕ → List Goroutine
consumers zero = []
consumers (suc n) = consumers n ++ consumer n ∷ []

unfoldable pub start_pool : WorkerPool → WorkerPool × List Goroutine
unfolding consumers
start_pool wp = if wp.started then (wp, []) else (
  record wp { started = true; cancellable = true },
  startup_reaper ∷ reaper ∷ consumers wp.count,
)
