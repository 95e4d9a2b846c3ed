-- ===== src/Storage/Questions/Expert.antt =====
-- UpdateByExpert, the cleaning of image bytes, CountUnresolvedForImage and Delete of
-- internal/storage/postgres/question_repo.go.
pub mod Verified
pub mod Bytes
pub mod Removal
use coeus.Prelude.{
  ℕ, ◌<◌, String, Bool, true, false, not, ◌&&◌, ◌||◌, Option, none, some, List, [], ◌∷◌, ◌++◌, ◌==◌,
  ltb, str_eq, any, count, find, select, update, if◌then◌else◌, ◌>>=◌, ◌>>◌, map_err, guard, lez,
  pos, concat, itoa,
}
use coeus.Domain.Types.{Uuid, Instant, Question, QuestionUpdate, Image}
use coeus.Domain.Errors.{GoError, DomainError, domain, pg, wrap, err_not_found}
use coeus.Storage.World.{
  Db, Link, World, Io, pure, throw, query, reading, writing, now, transaction, begin,
}
use coeus.Storage.Images.{with_images, is_image, clean}
use coeus.Storage.Questions.{
  with_questions, is_question, status_check, type_check, in_range, link_tags, to_numeric,
  find_question,
}
use coeus.Storage.Questions.Import.{drop_tags}

abbrev pub edit : Instant → QuestionUpdate → Uuid → Question → Question
edit at upd expert_id q = record q {
  answers = upd.answers;
  choices = upd.choices;
  explanation = upd.explanation;
  confidence = to_numeric upd.confidence;
  status = upd.status;
  verified_at = if str_eq upd.status "verified" then some at else none;
  verified_by = if str_eq upd.status "verified" then some expert_id else none;
  type = if str_eq upd.type "" then q.type else upd.type;
}

-- The constraints that the UPDATE can meet where the row is there
unfoldable pub edit_known : Uuid → QuestionUpdate → Uuid → Io Bool
unfolding status_check type_check
edit_known id upd expert_id = do
  guard (in_range upd.confidence) (pg "22003" "numeric field overflow")
  guard (status_check upd.status) (pg "23514" "violates check constraint")
  guard (str_eq upd.type "" || type_check upd.type) (pg "23514" "violates check constraint")
  known ← reading (λ db. any (λ u. u.id == expert_id) db.users)
  guard (known || not (str_eq upd.status "verified")) (pg "23503" "violates foreign key constraint")
  at ← now
  writing (with_questions (update (is_question id) (edit at upd expert_id)))
  pure true

-- The UPDATE, and RowsAffected
unfoldable pub edit_row : Uuid → QuestionUpdate → Uuid → Io Bool
unfolding edit_known
edit_row id upd expert_id = do
  hit ← reading (λ db. any (is_question id) db.questions)
  if hit then edit_known id upd expert_id else pure false

abbrev unresolved_status : Question → Bool
unresolved_status q = str_eq q.status "moderation" || str_eq q.status "error"

-- The JOIN of a link with its question, and the test of the status.
abbrev pub open_link : List Question → Uuid → Link → Bool
open_link questions image_id l =
    l.image_id == image_id && any (λ q. q.id == l.question_id && unresolved_status q) questions

unfoldable pub unresolved : Uuid → Db → ℕ
unresolved image_id db = count (open_link db.questions image_id) db.session_questions

unfoldable pub count_unresolved_for_image : Uuid → Io ℕ
unfolding unresolved
count_unresolved_for_image image_id =
    map_err (wrap "count unresolved") (query (reading (unresolved image_id)))

-- SELECT DISTINCT image_id … WHERE question_id = $1
unfoldable pub linked_images : Uuid → List Link → List Uuid
linked_images id [] = []
linked_images id (l ∷ ls) =
    let rest = linked_images id ls in
    if l.question_id == id && not (any (λ i. i == l.image_id) rest) then l.image_id ∷ rest else rest

-- One round of the loop over the images
abbrev pub clean_image : Uuid → Io (Unit {0})
clean_image i = do
  n ← map_err (wrap "count unresolved for image") (query (reading (unresolved i)))
  if n == 0
      then map_err (wrap "clean image bytes")
          (query (writing (with_images (update (is_image i) clean))))
      else pure tt

unfoldable pub clean_images : List Uuid → Io (Unit {0})
unfolding unresolved
clean_images [] = pure tt
clean_images (i ∷ is) = do clean_image i; clean_images is

unfoldable pub cleanup_image_bytes : Uuid → Io (Unit {0})
unfolding linked_images clean_images
cleanup_image_bytes id = do
  images ←
      map_err (wrap "select linked images")
        (query (reading (λ db. linked_images id db.session_questions)))
  clean_images images

unfoldable pub update_by_expert : Uuid → QuestionUpdate → Uuid → Io (Unit {0})
unfolding edit_row cleanup_image_bytes begin transaction
update_by_expert id upd expert_id = transaction (do
  map_err (wrap "begin update by expert") begin
  hit ← map_err (wrap "update by expert") (query (edit_row id upd expert_id))
  guard hit (wrap "update by expert" (domain err_not_found))
  map_err (wrap "clear tags") (query (writing (drop_tags id)))
  link_tags id upd.tags
  cleanup_image_bytes id
  map_err (wrap "commit update by expert") (query (pure tt)))

abbrev question_in_use : ℕ → DomainError
question_in_use n = record {
  code = "question_in_use";
  message = concat "question is linked to " (concat (itoa n) " session(s)");
}

-- DELETE FROM questions, with the tags and links that cascade from it
unfoldable pub remove_question : Uuid → Db → Db
remove_question id db = record db {
  questions = select (λ q. not (is_question id q)) db.questions;
  question_tags = select (λ t. not (t.0 == id)) db.question_tags;
  session_questions = select (λ l. not (l.question_id == id)) db.session_questions;
}

unfoldable pub delete_question : Uuid → Io (Unit {0})
unfolding find_question remove_question
delete_question id = do
  q ← find_question id
  n ←
      map_err (wrap "count session_questions")
        (query (reading (λ db. count (λ l. l.question_id == id) db.session_questions)))
  guard (not (ltb 0 n && not (str_eq q.status "error"))) (domain (question_in_use n))
  map_err (wrap "delete question") (query (writing (remove_question id)))
