-- ===== src/Pipeline/Worker/Looks.antt =====
-- The runs of internal/pipeline/pipeline.go only use up the looks at the context that are left.
use coeus.Prelude.{
  ℕ, ◌≡◌, refl, String, suc, zero, true, false, Option, none, some, Result, ok, err, List, [], ◌∷◌,
  ◌==◌, ◌>>◌, attempt, lift,
}
use coeus.Domain.Types.{Uuid, Vector, Image, Job, Question, Bytes}
use coeus.Domain.Errors.{GoError}
use coeus.Storage.World.{throw, spend, cancelled}
use coeus.Storage.Spends.{
  Spends, spends_rules, Spends-cancelled, Spends-then, Spends-pure, Spends-bind, Spends-lift,
  Spends-elim, Spends-throw,
}
use coeus.Storage.Jobs.{fail}
use coeus.Storage.Spends.Calls.{
  Spends-complete, Spends-fail, Spends-find_image, Spends-update_enhanced,
  Spends-update_verification_report, Spends-update_extraction_error, Spends-create_question,
  Spends-link_to_session, Spends-find_exact, Spends-find_semantic, Spends-update_from_verification,
}
use coeus.Pipeline.Ports.{
  ExtractedQuestion, ExtractResult, Services, PipelineConfig, VerifiedQuestion, VerifyResult,
}
use coeus.Pipeline.Extract.{extract_loop, extract_with_retries, retryable, wait, zero_result}
use coeus.Pipeline.Failure.{handle_extraction_failure, link_placeholder}
use coeus.Pipeline.Dedup.{
  NewQuestion, process_question, process_questions, create_new, after_exact, after_semantic,
  find_similar,
}
use coeus.Pipeline.Verify.{save_answer, save_answers, save_results, verify_new, questions_of}
use coeus.Pipeline.Run.{use_enhanced, extracted, execute, give_up_on, finished, executed, run}

module _ (L : Option ℕ → Type 0) (spent : (l : Option ℕ) → L l → L (spend l)) where
  looks : Spends L cancelled
  looks = Spends-cancelled spent

  waits : Spends L wait
  waits = search (spends_rules, looks) depth 6

  loops :
      (extract : ℕ → Result GoError ExtractResult) (left n : ℕ)
      (last : Result GoError ExtractResult)
      → Spends L (extract_loop extract left n last)
  unfolding extract_loop
  loops extract zero n last = Spends-lift last
  loops extract (suc left) n last = Spends-then wait _ waits (
      Spends-elim (retryable (extract n))
        (elim (left == 0) [
          | true ↦ lift (extract n)
          | false ↦ wait >> extract_loop extract left (suc n) (extract n)
        ])
        (lift (extract n))
        (Spends-elim (left == 0) (lift (extract n))
          (wait >> extract_loop extract left (suc n) (extract n)) (Spends-lift (extract n))
          (Spends-then wait _ waits (loops extract left (suc n) (extract n))))
        (Spends-lift (extract n)))

  retries :
      (svc : Services) (cfg : PipelineConfig) (image : Bytes) (mime : String)
      → Spends L (extract_with_retries svc cfg image mime)
  unfolding extract_with_retries
  retries svc cfg image mime =
      loops (λ n. svc.extract n image mime) cfg.extract_max_attempts 1 (ok zero_result)

  placed : (job : Job) (r : Result GoError Uuid) → Spends L (link_placeholder job r)
  placed job (err e) = Spends-pure tt
  placed job (ok id) = search (spends_rules, Spends-link_to_session L) depth 9

  failures :
      (svc : Services) (job : Job) (img : Image) (code detail : String)
      → Spends L (handle_extraction_failure svc job img code detail)
  unfolding handle_extraction_failure
  failures svc job img code detail =
      search (spends_rules, Spends-update_extraction_error L, Spends-create_question L, placed)
        depth 12

  module _ (svc : Services) (cfg : PipelineConfig) (job : Job) (eq : ExtractedQuestion) where
    news : (embedding : Option Vector) → Spends L (create_new svc cfg job eq embedding)
    unfolding create_new
    news embedding =
        search (spends_rules, Spends-create_question L, Spends-link_to_session L) depth 12

    similar : (v : Option Vector) → Spends L (find_similar svc cfg job eq v)
    similar none = Spends-pure none
    similar (some v) = search (spends_rules, Spends-find_semantic L) depth 9

    joins : (v : Option Vector) (q : Option Question) → Spends L (after_semantic svc cfg job eq v q)
    joins v none = news v
    joins v (some q) = search (spends_rules, Spends-link_to_session L) depth 9

    dedups : (q : Option Question) → Spends L (after_exact svc cfg job eq q)
    dedups none = search (spends_rules, similar, joins) depth 9
    dedups (some q) = search (spends_rules, Spends-link_to_session L) depth 9

    processes : Spends L (process_question svc cfg job eq)
    unfolding process_question
    processes = search (spends_rules, looks, Spends-find_exact L, dedups) depth 12

  all_processed :
      (svc : Services) (cfg : PipelineConfig) (job : Job) (eqs : List ExtractedQuestion)
      → Spends L (process_questions svc cfg job eqs)
  unfolding process_questions
  all_processed svc cfg job [] = Spends-pure []
  all_processed svc cfg job (eq ∷ eqs) =
      Spends-bind (process_question svc cfg job eq) _ (processes svc cfg job eq) λ new.
        Spends-bind (process_questions svc cfg job eqs) _ (all_processed svc cfg job eqs)
          λ news. Spends-pure _

  saves_one : (vq : VerifiedQuestion) (n : Option NewQuestion) → Spends L (save_answer vq n)
  saves_one vq none = Spends-pure tt
  saves_one vq (some n) = search (spends_rules, Spends-update_from_verification L) depth 9

  saves : (ns : List NewQuestion) (vqs : List VerifiedQuestion) → Spends L (save_answers ns vqs)
  unfolding save_answers
  saves ns [] = Spends-pure tt
  saves ns (vq ∷ vqs) = Spends-then (save_answer vq _) _ (saves_one vq _) (saves ns vqs)

  results :
      (img : Image) (ns : List NewQuestion) (r : Result GoError VerifyResult)
      → Spends L (save_results img ns r)
  results img ns (err e) = Spends-pure tt
  results img ns (ok vr) =
      search (spends_rules, saves, Spends-update_verification_report L) depth 12

  verified :
      (svc : Services) (img : Image) (ns : List NewQuestion) → Spends L (verify_new svc img ns)
  unfolding verify_new
  verified svc img [] = Spends-pure tt
  verified svc img (n ∷ ns) = results img (n ∷ ns) (svc.verify (questions_of (n ∷ ns)))

  uses : (img : Image) (r : Result GoError Bytes) → Spends L (use_enhanced img r)
  uses img (err e) = Spends-pure _
  uses img (ok []) = Spends-pure _
  uses img (ok (b ∷ bs)) = search (spends_rules, Spends-update_enhanced L) depth 9

  questions :
      (svc : Services) (cfg : PipelineConfig) (job : Job) (img : Image) (r : ExtractResult)
      (qs : List ExtractedQuestion)
      → r.questions ≡ qs
      → Spends L (extracted svc cfg job img (ok r))
  questions svc cfg job img r [] e = rw e (failures svc job img _ _)
  questions svc cfg job img r (q ∷ qs) e =
      rw e (search (spends_rules, all_processed, verified) depth 9)

  extractions :
      (svc : Services) (cfg : PipelineConfig) (job : Job) (img : Image)
      (r : Result GoError ExtractResult)
      → Spends L (extracted svc cfg job img r)
  extractions svc cfg job img (err e) = search (spends_rules, looks, failures) depth 12
  extractions svc cfg job img (ok r) = questions svc cfg job img r r.questions refl

  executes : (svc : Services) (cfg : PipelineConfig) (job : Job) → Spends L (execute svc cfg job)
  unfolding execute
  executes svc cfg job =
      search (spends_rules, looks, Spends-find_image L, uses, retries, extractions) depth 16

  gives_up : (job : Job) (msg : String) (e : GoError) → Spends L (give_up_on job msg e)
  unfolding give_up_on
  gives_up job msg e = Spends-bind cancelled _ looks λ dead.
      Spends-elim dead (throw e) (attempt (fail job.id msg) >> throw e) (Spends-throw e)
        (search (spends_rules, Spends-fail L) depth 9)

  finishes : (job : Job) (r : Result GoError (Unit {0})) → Spends L (finished job r)
  finishes job (ok _) = Spends-pure tt
  finishes job (err e) = gives_up job _ e

  settles : (job : Job) (r : Result GoError (Unit {0})) → Spends L (executed job r)
  settles job (err e) = gives_up job _ e
  settles job (ok _) = search (spends_rules, Spends-complete L, finishes) depth 12

  pub Spends-run : (svc : Services) (cfg : PipelineConfig) (job : Job) → Spends L (run svc cfg job)
  unfolding run
  Spends-run svc cfg job = search (spends_rules, executes, settles) depth 12
