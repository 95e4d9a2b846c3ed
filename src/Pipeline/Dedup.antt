-- ===== src/Pipeline/Dedup.antt =====
-- Step 4 of execute in internal/pipeline/pipeline.go: each extracted question is linked to a known
-- question, or becomes a new one.
pub mod Known
use coeus.Prelude.{
  String, not, Option, none, some, Result, ok, err, List, [], ◌∷◌, ◌>>=◌, ◌>>◌, map_err, guard, pos,
}
use coeus.Domain.Types.{Uuid, Vector, Job, Question, infer_choice_labeling, infer_question_type}
use coeus.Domain.Errors.{GoError, wrap}
use coeus.Domain.Normalize.{normalize_question, hash_question}
use coeus.Storage.World.{Io, pure, cancelled}
use coeus.Storage.Questions.{create_question, link_to_session, find_exact, find_semantic}
use coeus.Pipeline.Ports.{
  ExtractedQuestion, Services, PipelineConfig, ctx_error, answer_texts, answer_ids,
}

pub record NewQuestion : Type 0 where
  pub id : Uuid
  pub ext : ExtractedQuestion

-- Best effort: no embedder and a failed call are both no embedding.
abbrev embedding_of : Result GoError Vector → Option Vector
embedding_of (ok v) = some v
embedding_of (err e) = none

abbrev pub embed_text : Services → String → Option Vector
embed_text svc text = elim svc.embed [ none ↦ none | some f ↦ embedding_of (f text) ]

unfoldable pub new_question : Services → ExtractedQuestion → Option Vector → Question
unfolding hash_question infer_choice_labeling infer_question_type
new_question svc eq embedding =
    let norm = normalize_question svc.lower eq.text in
    record {
      id = 0;
      number = eq.number;
      text = eq.text;
      text_norm = norm;
      text_hash = hash_question svc.sha256_hex norm;
      choices = answer_texts eq.choices;
      answers = answer_texts eq.answers;
      choice_labeling = infer_choice_labeling (answer_ids eq.choices);
      type = infer_question_type (answer_texts eq.choices);
      confidence = pos 0;
      explanation = "";
      embedding = embedding;
      status = "moderation";
      verified_at = none;
      verified_by = none;
      tags = "ai-generated" ∷ eq.tags;
    }

module _ (svc : Services) (cfg : PipelineConfig) (job : Job) (eq : ExtractedQuestion) where
  abbrev pub link_known : String → Question → Io (Option NewQuestion)
  link_known context q = do
    map_err (wrap context) (link_to_session job.session_id job.image_id q.id eq.number (pos 0))
    pure none

  abbrev pub find_similar : Option Vector → Io (Option Question)
  find_similar none = pure none
  find_similar (some v) =
      map_err (wrap "semantic dedup") (find_semantic svc.distance v cfg.semantic_threshold)

  unfoldable pub create_new : Option Vector → Io (Option NewQuestion)
  create_new embedding = do
    id ← map_err (wrap "create question") (create_question (new_question svc eq embedding))
    map_err (wrap "link new question")
        (link_to_session job.session_id job.image_id id eq.number (pos 0))
    pure (some (record { id = id; ext = eq }))

  abbrev pub after_semantic : Option Vector → Option Question → Io (Option NewQuestion)
  after_semantic embedding (some q) = link_known "link semantic dedup" q
  after_semantic embedding none = create_new embedding

  abbrev pub after_exact : Option Question → Io (Option NewQuestion)
  after_exact (some q) = link_known "link exact dedup" q
  after_exact none = do
    similar ← find_similar (embed_text svc eq.text)
    after_semantic (embed_text svc eq.text) similar

  unfoldable pub process_question : Io (Option NewQuestion)
  unfolding cancelled create_new
  process_question = do
    dead ← cancelled
    guard (not dead) ctx_error
    existing ←
        map_err (wrap "exact dedup")
          (find_exact (hash_question svc.sha256_hex (normalize_question svc.lower eq.text)))
    after_exact existing

abbrev add_new : Option NewQuestion → List NewQuestion → List NewQuestion
add_new none news = news
add_new (some n) news = n ∷ news

unfoldable pub process_questions :
    Services → PipelineConfig → Job → List ExtractedQuestion → Io (List NewQuestion)
unfolding process_question
process_questions svc cfg job [] = pure []
process_questions svc cfg job (eq ∷ eqs) = do
  new ← process_question svc cfg job eq
  news ← process_questions svc cfg job eqs
  pure (add_new new news)
