-- ===== src/Examples/Runs.antt =====
-- Runs of the pipeline on a job.
use coeus.Prelude.{
  ℕ, ◌≡◌, refl, none, some, Result, ok, err, [], OnRet, Always, true, ◌≢◌, arith, count, final,
  lift, pos, ltb, if◌then◌else◌,
}
use coeus.Domain.Errors.{GoError, plain}
use coeus.Storage.Jobs.{running}
use coeus.Storage.Questions.{create_question}
use coeus.Pipeline.Ports.{ExtractResult, Services, PipelineConfig}
use coeus.Pipeline.Extract.{extract_loop}
use coeus.Pipeline.Extract.Retries.{Taken, extract_loop-Taken}
use coeus.Pipeline.Failure.{placeholder}
use coeus.Pipeline.Failure.Placeholder.{create_question-placeholder}
use coeus.Pipeline.Run.{run, executed}
use coeus.Pipeline.Run.Outcome.{run-running, executed-settles}
use coeus.Pipeline.Ports.{ExtractedQuestion}
use coeus.Storage.World.{World, Io, pure}
use coeus.Storage.Spends.{Spends-pure}
use coeus.Pipeline.Worker.{run_worker_session}
use coeus.Pipeline.Worker.Stops.{run_worker_session-Ended}
use coeus.Examples.Data.{job, db, world}

abbrev answer : ℕ → Result GoError ExtractResult
answer n = if ltb n 2 then err (plain "timeout") else ok (record { questions = []; error = none })

abbrev services : Services
services = record {
  enhance = λ bytes mime. err (plain "off");
  extract = λ n bytes mime. answer n;
  verify = λ qs. err (plain "off");
  embed = none;
  distance = λ u v. pos 0;
  lower = λ c. c;
  sha256_hex = λ s. s;
  show_uuid = λ n. "u";
  error_json = λ code detail. code;
}

abbrev config : PipelineConfig
config = record {
  extract_max_attempts = 3;
  semantic_threshold = pos 950000;
  reaper_interval = pos 60;
  stale_threshold = 300;
  max_queue_attempts = 3;
}

run-running_example :
    OnRet
      (λ _ w'. count (running 31) w'.db.jobs ≡ 0)
      (run services config (job 31 "processing" 1 (some 3)) world)
run-running_example = run-running services config (job 31 "processing" 1 (some 3)) world

executed-settles_example :
    count
      (running 31)
      (final (executed (job 31 "processing" 1 (some 3)) (err (plain "lost")) world)).db.jobs
    ≡ 0
executed-settles_example =
    executed-settles (job 31 "processing" 1 (some 3)) (err (plain "lost")) world refl (λ n. refl)

extract_loop-Taken_example :
    (r : Result GoError ExtractResult) × Taken answer 2 1 r
    × (extract_loop answer 3 1 (err (plain "none")) world ≡ lift r world)
extract_loop-Taken_example = extract_loop-Taken answer 2 1 (err (plain "none")) world refl

create_question-placeholder_example :
    OnRet (λ _ _. ⊥) (create_question (placeholder services 20 "ai_unavailable") world)
create_question-placeholder_example = create_question-placeholder services 20 "ai_unavailable" world

abbrev seen : ExtractedQuestion
seen = record {
  number = pos 1;
  text = " h1";
  choices = [];
  answers = [];
  confidence = pos 0;
  tags = [];
  image_context = "";
}

-- A context that one more look still finds alive
abbrev ending : World
ending = record world { left = some 1 }

abbrev idle : Io (Unit {0})
idle = pure tt

run_worker_session-Ended_example :
    Always
      (λ r _. r ≢ none)
      (run_worker_session (run services config) idle (λ e. true) idle 2 ending)
run_worker_session-Ended_example =
    run_worker_session-Ended services config idle idle (λ e. true) 1 2 ending (λ n. Spends-pure tt)
      (λ n. Spends-pure tt) refl (omega arith)
