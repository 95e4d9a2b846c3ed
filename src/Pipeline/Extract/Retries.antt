-- ===== src/Pipeline/Extract/Retries.antt =====
-- The answer that extractWithRetries of internal/pipeline/pipeline.go returns.
use coeus.Prelude.{
  str_eq, eq_iff, Option-cases, ok, err, some, ℕ, zero, suc, ◌≡◌, refl, true, false, none, Result,
  arith, lift, Bool-cases, inl, inr, ◌==◌, ret,
}
use coeus.Domain.Errors.{GoError}
use coeus.Storage.World.{World, cancelled}
use coeus.Pipeline.Ports.{ExtractResult, ExtractionError}
use coeus.Pipeline.Extract.{retryable, wait, extract_loop}

-- A context that stays alive lets the loop pass its two tests.
wait-alive : (w : World) → w.left ≡ none → wait w ≡ ret tt w
unfolding cancelled
wait-alive w alive = ground arith

-- An answer that is worth another attempt: an error, or a photograph that the model could not read
-- or found no questions in.
pub data Transient : Result GoError ExtractResult → Type 0 where
  failed : (e : GoError) → Transient (err e)
  unreadable :
      (r : ExtractResult) (e : ExtractionError)
      → r.error ≡ some e
      → e.code ≡ "unreadable_image"
      → Transient (ok r)
  empty :
      (r : ExtractResult) (e : ExtractionError)
      → r.error ≡ some e
      → e.code ≡ "no_questions_found"
      → Transient (ok r)

retryable-Transient : (a : Result GoError ExtractResult) → retryable a ≡ true → Transient a
retryable-Transient (err e) h = failed e
retryable-Transient (ok r) h = elim (Option-cases r.error) [
  | inl fine ↦ absurd (ground arith)
  | inr (e, told) ↦ elim (Bool-cases (str_eq e.code "unreadable_image")) [
    | inl same ↦ unreadable r e told ((eq_iff e.code "unreadable_image").0 same)
    | inr other ↦ empty r e told ((eq_iff e.code "no_questions_found").0 (ground arith))
  ]
]

Transient-retryable : (a : Result GoError ExtractResult) → Transient a → retryable a ≡ true
Transient-retryable (err e) t = refl
Transient-retryable (ok r) (unreadable _ e told same) = rw (told, same) refl
Transient-retryable (ok r) (empty _ e told same) = rw (told, same) refl

module _ (extract : ℕ → Result GoError ExtractResult) where
  -- The answer to take, of `suc left` attempts from `n` on: that of attempt `n` where it is not
  -- transient or the last, or else that to take of the attempts behind it.
  pub data Taken : ℕ → ℕ → Result GoError ExtractResult → Type 0 where
    last : (n : ℕ) → Taken 0 n (extract n)
    final_answer : (left n : ℕ) → ¬ Transient (extract n) → Taken left n (extract n)
    later :
        (left n : ℕ) (r : Result GoError ExtractResult)
        → Transient (extract n)
        → Taken left (suc n) r
        → Taken (suc left) n r

  -- With a context that stays alive, `suc left` attempts end, without a change, in the first of
  -- their answers that is neither an error nor tells of a photograph that is unreadable or without
  -- questions, or else in that of the last attempt.
  pub extract_loop-Taken :
      (left n : ℕ) (before : Result GoError ExtractResult) (w : World)
      → w.left ≡ none
      → (r : Result GoError ExtractResult) × Taken left n r
        × (extract_loop extract (suc left) n before w ≡ lift r w)
  unfolding extract_loop cancelled
  extract_loop-Taken zero n before w alive = elim (Bool-cases (retryable (extract n))) [
    | inl e ↦ (extract n, last n, rw (wait-alive w alive, e) refl)
    | inr e ↦ (extract n, last n, rw (wait-alive w alive, e) refl)
  ]
  extract_loop-Taken (suc left) n before w alive = elim (Bool-cases (retryable (extract n))) [
    | inl e ↦
        let more : (suc left == 0) ≡ false = ground arith in
        let (r, t, same) = extract_loop-Taken left (suc n) (extract n) w alive in
        (
          r,
          later left n r (retryable-Transient (extract n) e) t,
          rw (wait-alive w alive, e, more, wait-alive w alive) same,
        )
    | inr e ↦ (
      extract n,
      final_answer (suc left) n
          (λ t. absurd (ground (arith, e, Transient-retryable (extract n) t))),
      rw (wait-alive w alive, e) refl,
    )
  ]
