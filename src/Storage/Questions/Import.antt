-- ===== src/Storage/Questions/Import.antt =====
-- internal/storage/postgres/question_import.go: the upsert of one imported row.
use coeus.Prelude.{
  Bool, true, false, not, Option, none, some, ◌==◌, find, select, update, ◌>>=◌, ◌>>◌, map_err,
}
use coeus.Domain.Types.{Uuid, Instant, Vector, Question}
use coeus.Domain.Errors.{wrap}
use coeus.Storage.World.{Db, Io, pure, query, reading, writing, now, transaction, begin}
use coeus.Storage.Questions.{
  with_questions, is_question, has_hash, insert_question, row_check, link_tags, to_numeric,
}

abbrev coalesce : Option Vector → Option Vector → Option Vector
coalesce none old = old
coalesce (some v) old = some v

-- DO UPDATE SET …
abbrev pub overwrite : Instant → Question → Question → Question
overwrite at q old = record old {
  text = q.text;
  choices = q.choices;
  answers = q.answers;
  explanation = q.explanation;
  confidence = to_numeric q.confidence;
  type = q.type;
  status = "verified";
  verified_at = some at;
  verified_by = q.verified_by;
  embedding = coalesce q.embedding old.embedding;
}

-- The arm that ON CONFLICT takes: (id, created).
abbrev pub upsert_arm : Question → Option Question → Io (Uuid × Bool)
upsert_arm q none = do id ← insert_question q; pure (id, true)
upsert_arm q (some old) = do
  row_check q
  at ← now
  writing (with_questions (update (is_question old.id) (overwrite at q)))
  pure (old.id, false)

unfoldable pub upsert_row : Question → Io (Uuid × Bool)
upsert_row q = do old ← reading (λ db. find (has_hash q.text_hash) db.questions); upsert_arm q old

abbrev pub drop_tags : Uuid → Db → Db
drop_tags id db = record db { question_tags = select (λ t. not (t.0 == id)) db.question_tags }

unfoldable pub upsert_from_import : Question → Io Bool
unfolding upsert_row begin transaction
upsert_from_import q = transaction (do
  map_err (wrap "begin import upsert") begin
  row ← map_err (wrap "import upsert") (query (upsert_row q))
  map_err (wrap "clear tags") (query (writing (drop_tags row.0)))
  link_tags row.0 q.tags
  map_err (wrap "commit import upsert") (query (pure tt))
  pure row.1)
