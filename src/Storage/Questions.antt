-- ===== src/Storage/Questions.antt =====
-- internal/storage/postgres/question_repo.go: the rows, Create, LinkToSession, the finders and
-- UpdateFromVerification. The children hold the import, the expert's edits and the lists.
pub mod Import
pub mod Expert
pub mod Views
pub mod Added
pub mod Upserted
use coeus.Prelude.{
  ℕ, suc, ◌+◌, ◌-◌, ◌*◌, ◌/◌, ◌<◌, String, Bool, true, false, not, ◌&&◌, ◌||◌, Option, none, some,
  List, [], ◌∷◌, ◌++◌, ◌==◌, ltb, leb, length, str_eq, any, count, find, select, update,
  if◌then◌else◌, ◌>>=◌, ◌>>◌, map_err, guard, pos, negsuc, lez, ltz, ◌-ℤ◌, ℤ,
}
use coeus.Domain.Types.{Uuid, Float, Vector, Image, Session, Question}
use coeus.Domain.Errors.{GoError, domain, no_rows, pg, wrap, err_not_found, is_no_rows}
use coeus.Storage.World.{
  Db, User, Link, World, Io, pure, throw, query, reading, writing, fresh_id, now,
}

abbrev pub with_questions : (List Question → List Question) → Db → Db
with_questions f db = record db { questions = f db.questions }

abbrev pub is_question : Uuid → Question → Bool
is_question id q = q.id == id

abbrev pub has_hash : String → Question → Bool
has_hash hash q = str_eq q.text_hash hash

-- numeric(3,2): two decimals, a half rounded away from zero, and below ten.
abbrev round_half : ℕ → ℕ
round_half n = (n + 5000) / 10000 * 10000

abbrev pub to_numeric : Float → Float
to_numeric (pos n) = pos (round_half n)
to_numeric (negsuc n) = pos 0 -ℤ pos (round_half (suc n))

abbrev pub in_range : Float → Bool
in_range x = ltz (to_numeric x) (pos 10000000) && ltz (pos 0 -ℤ pos 10000000) (to_numeric x)

abbrev vector_check : Option Vector → Bool
vector_check none = true
vector_check (some v) = length v == 1536

abbrev user_check : Db → Option Uuid → Bool
user_check db none = true
user_check db (some id) = any (λ u. u.id == id) db.users

-- The CHECK constraints, column types and foreign key of the questions table.
unfoldable pub status_check : String → Bool
status_check s = str_eq s "moderation" || (str_eq s "verified" || str_eq s "error")

unfoldable pub type_check : String → Bool
type_check t = str_eq t "multiple_choice" || str_eq t "free_response"

unfoldable pub labeling_check : String → Bool
labeling_check l = str_eq l "letter" || str_eq l "number"

unfoldable pub row_check : Question → Io (Unit {0})
unfolding status_check type_check labeling_check
row_check q = do
  guard (labeling_check q.choice_labeling) (pg "23514" "violates check constraint")
  guard (status_check q.status) (pg "23514" "violates check constraint")
  guard (type_check q.type) (pg "23514" "violates check constraint")
  guard (in_range q.confidence) (pg "22003" "numeric field overflow")
  guard (vector_check q.embedding) (pg "22000" "expected 1536 dimensions")
  known ← reading (λ db. user_check db q.verified_by)
  guard known (pg "23503" "violates foreign key constraint")

abbrev pub stored : Uuid → Question → Question
stored id q = record q { id = id; confidence = to_numeric q.confidence; tags = [] }

-- INSERT INTO questions, with UNIQUE (question_hash)
unfoldable pub insert_question : Question → Io Uuid
unfolding row_check
insert_question q = do
  row_check q
  taken ← reading (λ db. any (has_hash q.text_hash) db.questions)
  guard (not taken) (pg "23505" "duplicate key value violates unique constraint")
  id ← fresh_id
  writing (with_questions (λ qs. qs ++ stored id q ∷ []))
  pure id

abbrev pub has_tag : Uuid → String → Db → Bool
has_tag id name db = any (λ t. t.0 == id && str_eq t.1 name) db.question_tags

abbrev pub add_tag : Uuid → String → Db → Db
add_tag id name db =
    if has_tag id name db
    then db
    else record db { question_tags = db.question_tags ++ (id, name) ∷ [] }

-- linkTag and linkTagTx: the tag, then the pair.
unfoldable pub link_tag : Uuid → String → Io (Unit {0})
link_tag id name = do query (pure tt); query (writing (add_tag id name))

unfoldable pub link_tags : Uuid → List String → Io (Unit {0})
unfolding link_tag
link_tags id [] = pure tt
link_tags id (name ∷ names) = do map_err (wrap "link tag") (link_tag id name); link_tags id names

abbrev pub with_type : Question → Question
with_type q = record q { type = if str_eq q.type "" then "multiple_choice" else q.type }

unfoldable pub create_question : Question → Io Uuid
unfolding insert_question link_tags
create_question q = do
  id ← map_err (wrap "create question") (query (insert_question (with_type q)))
  link_tags id q.tags
  pure id

abbrev links : Uuid → Uuid → Uuid → Link → Bool
links session_id image_id question_id l =
    l.session_id == session_id && (l.image_id == image_id && l.question_id == question_id)

unfoldable pub insert_link : Uuid → Uuid → Uuid → ℤ → Float → Io (Unit {0})
insert_link session_id image_id question_id number confidence = do
  known ← reading (λ db.
      any (λ s. s.id == session_id) db.sessions
      && (any (λ i. i.id == image_id) db.images && any (is_question question_id) db.questions))
  guard known (pg "23503" "violates foreign key constraint")
  id ← fresh_id
  let l : Link = record {
    id = id;
    session_id = session_id;
    image_id = image_id;
    question_id = question_id;
    extracted_number = number;
    extracted_confidence = to_numeric confidence;
  }
  linked ← reading (λ db. any (links session_id image_id question_id) db.session_questions)
  writing (λ db.
      if linked then db else record db { session_questions = db.session_questions ++ l ∷ [] })

unfoldable pub link_to_session : Uuid → Uuid → Uuid → ℤ → Float → Io (Unit {0})
unfolding insert_link
link_to_session session_id image_id question_id number confidence =
    map_err (wrap "link question to session")
      (query (insert_link session_id image_id question_id number confidence))

abbrev pub one_question : Option Question → Io Question
one_question none = throw no_rows
one_question (some q) = pure q

unfoldable pub find_question : Uuid → Io Question
find_question id =
    map_err
      (λ e.
        if is_no_rows e
        then wrap "find question" (domain err_not_found)
        else wrap "find question" e)
      (query (do row ← reading (λ db. find (is_question id) db.questions); one_question row))

-- No row is no error here.
unfoldable pub find_exact : String → Io (Option Question)
find_exact hash = query (reading (λ db. find (has_hash hash) db.questions))

-- `distance` is the `<=>` of pgvector.
module _ (distance : Vector → Vector → Float) where
  abbrev distance_to : Vector → Question → Option Float
  distance_to v q = elim q.embedding [ none ↦ none | some u ↦ some (distance u v) ]

  abbrev closer : Question → Float → Option (Question × Float) → Question × Float
  closer q d none = (q, d)
  closer q d (some (p, e)) = if lez d e then (q, d) else (p, e)

  -- ORDER BY distance LIMIT 1 among the rows within the bound
  abbrev nearest_of :
      Option Float → Float → Question → Option (Question × Float) → Option (Question × Float)
  nearest_of none most q best = best
  nearest_of (some d) most q best = if lez d most then some (closer q d best) else best

  unfoldable pub nearest : Vector → Float → List Question → Option (Question × Float)
  nearest v most [] = none
  nearest v most (q ∷ qs) = let best = nearest v most qs in nearest_of (distance_to v q) most q best

  abbrev found : Option (Question × Float) → Option Question
  found none = none
  found (some (q, d)) = some q

  unfoldable pub find_semantic : Vector → Float → Io (Option Question)
  unfolding nearest
  find_semantic v threshold =
      query (reading (λ db. found (nearest v (pos 1000000 -ℤ threshold) db.questions)))

abbrev verified_answers : List String → Float → String → Question → Question
verified_answers answers confidence explanation q = record q {
  answers = answers;
  confidence = to_numeric confidence;
  explanation = explanation;
}

unfoldable pub update_from_verification : Uuid → List String → Float → String → Io (Unit {0})
update_from_verification id answers confidence explanation = do
  hit ← map_err (wrap "update from verification") (
      query (do
        guard (in_range confidence) (pg "22003" "numeric field overflow")
        hit ← reading (λ db. any (is_question id) db.questions)
        writing (
            with_questions
              (update (is_question id) (verified_answers answers confidence explanation)))
        pure hit))
  guard hit (wrap "update from verification" (domain err_not_found))
