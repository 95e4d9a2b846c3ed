-- ===== src/Pipeline/Extract.antt =====
-- extractWithRetries of internal/pipeline/pipeline.go.
pub mod Retries
use coeus.Prelude.{
  ℕ, zero, suc, String, Bool, true, false, ◌||◌, Option, none, some, Result, ok, err, List, [], ◌∷◌,
  ◌==◌, str_eq, if◌then◌else◌, ◌>>=◌, ◌>>◌, lift, not, guard,
}
use coeus.Domain.Types.{Bytes}
use coeus.Domain.Errors.{GoError}
use coeus.Storage.World.{World, Io, pure, throw, cancelled}
use coeus.Pipeline.Ports.{ExtractResult, ExtractionError, Services, PipelineConfig, ctx_error}

-- Whether the loop goes on after an answer.
abbrev retryable_code : Option ExtractionError → Bool
retryable_code none = false
retryable_code (some e) = str_eq e.code "unreadable_image" || str_eq e.code "no_questions_found"

abbrev pub retryable : Result GoError ExtractResult → Bool
retryable (err e) = true
retryable (ok r) = retryable_code r.error

-- select { <-time.After(backoff) | <-ctx.Done() }
abbrev pub wait : Io (Unit {0})
wait = do dead ← cancelled; guard (not dead) ctx_error

module _ (extract : ℕ → Result GoError ExtractResult) where
  -- `left` attempts remain, `attempt` is the next; `last` is the answer of the one before.
  unfoldable pub extract_loop : ℕ → ℕ → Result GoError ExtractResult → Io ExtractResult
  unfolding cancelled
  extract_loop zero attempt last = lift last
  extract_loop (suc left) attempt last = do
    wait
    elim (retryable (extract attempt)) [
      | false ↦ lift (extract attempt)
      | true ↦ elim (left == 0) [
        | true ↦ lift (extract attempt)
        | false ↦ (do wait; extract_loop left (suc attempt) (extract attempt))
      ]
    ]

abbrev pub zero_result : ExtractResult
zero_result = record { questions = []; error = none }

unfoldable pub extract_with_retries : Services → PipelineConfig → Bytes → String → Io ExtractResult
unfolding extract_loop
extract_with_retries svc cfg image mime =
    extract_loop (λ n. svc.extract n image mime) cfg.extract_max_attempts 1 (ok zero_result)
