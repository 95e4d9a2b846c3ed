-- ===== src/Storage/Questions/Upserted.antt =====
-- What UpsertFromImport of internal/storage/postgres/question_import.go makes of the questions.
use coeus.Prelude.{
  ◌==◌, ◌≡◌, Bool, true, false, Option, none, some, List, [], ◌∷◌, ◌++◌, find, update, Outcome, ret,
  raise, map_err, ◌>>◌,
}
use coeus.Domain.Types.{Uuid, Instant, Vector, Question}
use coeus.Domain.Errors.{GoError, wrap}
use coeus.Storage.World.{Db, World, Io, pure, query, writing}
use coeus.Storage.Keeps.{Keeps}
use coeus.Storage.Questions.{has_hash, to_numeric, link_tags}
use coeus.Storage.Questions.Import.{drop_tags}

abbrev pub or_old : Option Vector → Option Vector → Option Vector
or_old none old = old
or_old (some v) old = some v

-- The row of a question that was known, at an instant
abbrev pub renewed : Question → Instant → Question → Question
renewed q at old = record old {
  text = q.text;
  choices = q.choices;
  answers = q.answers;
  explanation = q.explanation;
  confidence = to_numeric q.confidence;
  type = q.type;
  status = "verified";
  verified_at = some at;
  verified_by = q.verified_by;
  embedding = or_old q.embedding old.embedding;
}

module _ (q : Question) (qs : List Question) where
  -- The questions after an upsert, and whether it created a row
  pub data Change : Bool → List Question → Type 0 where
    inserted :
        (id : Uuid) (later : List Question)
        → find (has_hash q.text_hash) qs ≡ none
        → later ≡ qs ++ record q { id = id; confidence = to_numeric q.confidence; tags = [] } ∷ []
        → Change true later
    overwritten :
        (old : Question) (at : Instant) (later : List Question)
        → find (has_hash q.text_hash) qs ≡ some old
        → later ≡ update (λ o. o.id == old.id) (renewed q at) qs
        → Change false later

  abbrev Becomes : Bool → Db → Type 0
  Becomes b db = Change b db.questions

  abbrev Arm : Uuid × Bool → World → Type 0
  Arm row w = Becomes row.1 w.db

  -- The tags and the commit, behind the upsert of the row
  abbrev tagged : Uuid × Bool → Io Bool
  tagged row = do
    map_err (wrap "clear tags") (query (writing (drop_tags row.0)))
    link_tags row.0 q.tags
    map_err (wrap "commit import upsert") (query (pure tt))
    pure row.1

-- How an upsert of an imported question ends
pub data Upserted (q : Question) (w : World) : Outcome GoError World Bool → Type 0 where
  stored_as :
      (created : Bool) (w' : World)
      → Change q w.db.questions created w'.db.questions
      → Upserted q w (ret created w')
  refused : (e : GoError) (w' : World) → w'.db ≡ w.db → Upserted q w (raise e w')
