-- ===== src/Pipeline/Worker/Stops.antt =====
-- When the claim loop of internal/pipeline/worker.go ends.
use coeus.Prelude.{
  ℕ, zero, suc, ◌≤◌, ◌<◌, ◌≡◌, ◌≢◌, refl, Bool, true, false, Option, none, some, Result, ok, err,
  arith, attempt, Always, Always-after, Bool-cases, inl, inr,
}
use coeus.Domain.Types.{Job}
use coeus.Domain.Errors.{GoError}
use coeus.Storage.World.{World, Io, cancelled, spend, dead}
use coeus.Storage.Jobs.{claim}
use coeus.Storage.Spends.{Spends, Always-attempt}
use coeus.Storage.Spends.Calls.{Spends-claim}
use coeus.Pipeline.Ports.{Services, PipelineConfig}
use coeus.Pipeline.Run.{run}
use coeus.Pipeline.Worker.Looks.{Spends-run}
use coeus.Pipeline.Worker.{claimed, waited, connected, claim_loop, run_worker_session}

-- At most `k` looks at the context still find it alive.
abbrev pub Within : ℕ → Option ℕ → Type 0
Within k left = (j : ℕ) × (left ≡ some j) × (j ≤ k)

spend-Within : (k : ℕ) (l : Option ℕ) → Within k l → Within k (spend l)
spend-Within k none (j, e, le) = absurd (ground arith)
spend-Within k (some zero) h = h
spend-Within k (some (suc n)) (j, e, le) =
    let same : suc n ≡ j = ground arith in (n, refl, omega arith)

-- A look that finds the context alive uses one up.
alive-Within : (k : ℕ) (l : Option ℕ) → Within (suc k) l → dead l ≡ false → Within k (spend l)
alive-Within k none (j, e, le) h = absurd (ground arith)
alive-Within k (some zero) w h = absurd (ground arith)
alive-Within k (some (suc n)) (j, e, le) h =
    let same : suc n ≡ j = ground arith in (n, refl, omega arith)

dead-Within : (l : Option ℕ) → Within 0 l → dead l ≡ true
dead-Within none (j, e, le) = absurd (ground arith)
dead-Within (some zero) w = refl
dead-Within (some (suc n)) (j, e, le) = absurd (ground arith)

-- The loop has ended, with whether the context ended it.
abbrev pub Ended : Option Bool → World → Type 0
Ended r w = r ≢ none

module _ (run_job : Job → Io (Unit {0})) (wait : Io (Unit {0})) (is_timeout : GoError → Bool)
    (k : ℕ) (job_spends : (job : Job) → Spends (Within k) (run_job job))
    (wait_spends : Spends (Within k) wait) where
  abbrev More : Io (Option Bool) → Type 0
  More more = (w : World) → Within k w.left → Always Ended (more w)

  waited-Ended :
      (more : Io (Option Bool))
      → More more
      → (r : Result GoError (Unit {0})) (w : World) → Within k w.left
      → Always Ended (waited run_job wait is_timeout r more w)
  waited-Ended more go (ok _) w h = go w h
  waited-Ended more go (err e) w h = elim (Bool-cases (is_timeout e)) [
    | inl late ↦ rw late (go w h)
    | inr gone ↦ rw gone cc
  ]

  claimed-Ended :
      (more : Io (Option Bool))
      → More more
      → (r : Result GoError (Option Job)) (w : World) → Within k w.left
      → Always Ended (claimed run_job wait is_timeout r more w)
  unfolding cancelled
  claimed-Ended more go (err e) w h = elim (Bool-cases (dead w.left)) [
    | inl stop ↦ rw stop cc
    | inr on ↦ rw on (go _ (spend-Within k w.left h))
  ]
  claimed-Ended more go (ok (some job)) w h =
      Always-after (λ _ w'. Within k w'.left) Ended (attempt (run_job job) w) (λ _. more)
        (Always-attempt (run_job job) w (job_spends job) h) (λ _ w' h'. go w' h')
  claimed-Ended more go (ok none) w h =
      Always-after (λ _ w'. Within k w'.left) Ended (attempt wait w)
        (λ r. waited run_job wait is_timeout r more) (Always-attempt wait w wait_spends h)
        (λ r w' h'. waited-Ended more go r w' h')

module _ (run_job : Job → Io (Unit {0})) (wait : Io (Unit {0})) (is_timeout : GoError → Bool)
    (job_spends : (k : ℕ) (job : Job) → Spends (Within k) (run_job job))
    (wait_spends : (k : ℕ) → Spends (Within k) wait) where
  claim_loop-Ended :
      (k fuel : ℕ) (w : World)
      → Within k w.left
      → k < fuel
      → Always Ended (claim_loop run_job wait is_timeout fuel w)
  unfolding claim_loop cancelled
  claim_loop-Ended k zero w h lt = absurd (omega arith)
  claim_loop-Ended zero (suc fuel) w h lt = rw (dead-Within w.left h) cc
  claim_loop-Ended (suc k) (suc fuel) w h lt = elim (Bool-cases (dead w.left)) [
    | inl stop ↦ rw stop cc
    | inr on ↦ rw on (
        Always-after (λ _ w'. Within k w'.left) Ended
          (attempt claim (record w { left = spend w.left }))
          (λ r. claimed run_job wait is_timeout r (claim_loop run_job wait is_timeout fuel))
          (Always-attempt claim (record w { left = spend w.left }) (Spends-claim (Within k))
            (alive-Within k w.left h on))
          (λ r w' h'.
            claimed-Ended run_job wait is_timeout k (job_spends k) (wait_spends k)
              (claim_loop run_job wait is_timeout fuel)
              (λ v hv. claim_loop-Ended k fuel v hv (omega arith)) r w' h'))
  ]

-- A worker's session whose context finds itself cancelled after `k` more looks ends, whatever the
-- queue, the jobs and the connection do: it is over within k + 1 rounds of its loop.
pub run_worker_session-Ended :
    (svc : Services) (cfg : PipelineConfig) (wait listen : Io (Unit {0}))
    (is_timeout : GoError → Bool) (k rounds : ℕ) (w : World)
    → ((n : ℕ) → Spends (Within n) wait)
    → ((n : ℕ) → Spends (Within n) listen)
    → w.left ≡ some k
    → k < rounds
    → Always (λ r _. r ≢ none) (run_worker_session (run svc cfg) wait is_timeout listen rounds w)
unfolding run_worker_session
run_worker_session-Ended svc cfg wait listen is_timeout k rounds w waits listens left lt =
    Always-after (λ _ w'. Within k w'.left) Ended (attempt listen w)
      (connected (run svc cfg) wait is_timeout rounds)
      (Always-attempt listen w (listens k) (k, left, omega arith)) λ r w' h. session r w' h
  where
    session :
        (r : Result GoError (Unit {0})) (w' : World)
        → Within k w'.left
        → Always Ended (connected (run svc cfg) wait is_timeout rounds r w')
    session (err e) w' h = cc
    session (ok _) w' h =
        claim_loop-Ended (run svc cfg) wait is_timeout
          (λ n. Spends-run (Within n) (spend-Within n) svc cfg) waits k rounds w' h lt
