-- ===== src/Storage/Questions/Views.antt =====
-- The read-side projections of internal/storage/postgres/question_repo.go. ORDER BY created_at is
-- the order of insertion.
pub mod Refetch
use coeus.Prelude.{
  ℕ, suc, String, Char, Bool, true, false, ◌&&◌, ◌||◌, Option, none, some, List, [], ◌∷◌, ◌++◌, map,
  ◌==◌, leb, str_eq, any, find, select, if◌then◌else◌, ◌>>=◌, map_err, ret, ℤ, lez, code,
}
use coeus.Domain.Types.{Uuid, Float, Question, Image}
use coeus.Domain.Errors.{domain, no_rows, wrap, err_not_found, is_no_rows}
use coeus.Storage.World.{Db, Link, Io, pure, throw, query, reading}
use coeus.Storage.Sessions.{window}
use coeus.Storage.Like.{escape_like, like}
use coeus.Storage.Questions.{is_question}

-- internal/storage/ports.go
pub record QuestionWithSession : Type 0 where
  pub question : Question
  pub session_id : Uuid
  pub image_id : Uuid
  pub extracted_number : ℤ
  pub extracted_confidence : Float

-- `image_id` is `none` for the empty string of a question with no link.
pub record QuestionExpertView : Type 0 where
  pub question : Question
  pub image_id : Option Uuid
  pub has_verification_report : Bool

-- FROM session_questions JOIN questions
abbrev joined : Link → Option Question → List QuestionWithSession
joined l none = []
joined l (some q) =
    record {
      question = q;
      session_id = l.session_id;
      image_id = l.image_id;
      extracted_number = l.extracted_number;
      extracted_confidence = l.extracted_confidence;
    }
    ∷ []

unfoldable pub join : List Question → List Link → List QuestionWithSession
join questions [] = []
join questions (l ∷ ls) = joined l (find (is_question l.question_id) questions) ++ join questions ls

-- ORDER BY extracted_number
pub place : QuestionWithSession → List QuestionWithSession → List QuestionWithSession
place x [] = x ∷ []
place x (y ∷ ys) = if lez x.extracted_number y.extracted_number then x ∷ y ∷ ys else y ∷ place x ys

pub by_number : List QuestionWithSession → List QuestionWithSession
unfolding place
by_number [] = []
by_number (x ∷ xs) = place x (by_number xs)

abbrev keeps_status : String → Question → Bool
keeps_status filter q = str_eq filter "" || str_eq q.status filter

unfoldable pub list_for_session : Uuid → String → ℤ → ℤ → Io (List QuestionWithSession)
unfolding by_number join
list_for_session session_id status limit offset = map_err (wrap "list questions for session") (
    query (do
      rows ← reading (λ db. by_number (
          select (λ x. x.session_id == session_id && keeps_status status x.question)
            (join db.questions db.session_questions)))
      window limit offset rows))

-- getTags, whose error the callers drop
abbrev tag_name : Uuid → Uuid × String → Bool
tag_name id t = t.0 == id

unfoldable pub tags_of : Uuid → Db → List String
tags_of id db = map (λ (t : Uuid × String). t.1) (select (tag_name id) db.question_tags)

-- ORDER BY sq.id LIMIT 1
abbrev lower_id : Link → Option Link → Link
lower_id l none = l
lower_id l (some m) = if leb l.id m.id then l else m

pub first_link : Uuid → List Link → Option Link
first_link id [] = none
first_link id (l ∷ ls) =
    let rest = first_link id ls in if l.question_id == id then some (lower_id l rest) else rest

abbrev link_image : Option Link → Option Uuid
link_image none = none
link_image (some l) = some l.image_id

abbrev reported : Option Image → Bool
reported none = false
reported (some i) = elim i.verification_report [ none ↦ false | some r ↦ true ]

abbrev link_reported : Db → Option Link → Bool
link_reported db none = false
link_reported db (some l) = reported (find (λ i. i.id == l.image_id) db.images)

unfoldable pub expert_view : Db → Question → QuestionExpertView
unfolding first_link
expert_view db q = record {
  question = q;
  image_id = link_image (first_link q.id db.session_questions);
  has_verification_report = link_reported db (first_link q.id db.session_questions);
}

-- getTags is a round trip of its own; where it fails the tags stay empty.
abbrev pub settle_tags : QuestionExpertView → Io QuestionExpertView
settle_tags ev w = elim (w.faults w.trips) [
  | none ↦
      ret (record ev { question = record ev.question { tags = tags_of ev.question.id w.db } })
        (record w { trips = suc w.trips })
  | some e ↦ ret ev (record w { trips = suc w.trips })
]

abbrev pub one_view : Db → Option Question → Io QuestionExpertView
one_view db none = throw no_rows
one_view db (some q) = pure (expert_view db q)

unfoldable pub find_expert : Uuid → Io QuestionExpertView
unfolding expert_view tags_of
find_expert id = do
  ev ←
      map_err
        (λ e.
          if is_no_rows e
          then wrap "find expert question" (domain err_not_found)
          else wrap "find expert question" e)
        (query (do db ← reading (λ db. db); one_view db (find (is_question id) db.questions)))
  settle_tags ev

unfoldable pub settle_all : List QuestionExpertView → Io (List QuestionExpertView)
settle_all [] = pure []
settle_all (ev ∷ evs) = do ev' ← settle_tags ev; rest ← settle_all evs; pure (ev' ∷ rest)

-- ILIKE compares the lower-case texts; `json` is the text of a jsonb array.
module _ (lower : Char → Char) (json : List String → String) where
  abbrev folded : String → List ℕ
  folded String.[] = []
  folded (String.◌∷◌ c s) = code (lower c) ∷ folded s

  abbrev pub ilike : String → String → Bool
  ilike text term = like (b'%' ∷ (escape_like (folded term) ++ b'%' ∷ [])) (folded text)

  unfoldable pub matches_search : Db → String → Question → Bool
  matches_search db term q =
      ilike q.text term
      || (ilike (json q.choices) term
          || (ilike (json q.answers) term
              || any (λ t. t.0 == q.id && ilike t.1 term) db.question_tags))

  abbrev in_queue : Db → String → String → Question → Bool
  in_queue db status term q = keeps_status status q && (str_eq term "" || matches_search db term q)

  unfoldable pub list_for_moderation : String → String → ℤ → ℤ → Io (List QuestionExpertView)
  unfolding matches_search expert_view settle_all
  list_for_moderation status term limit offset = do
    views ← map_err (wrap "list moderation expert") (
        query (do
          rows ←
              reading (λ db. map (expert_view db) (select (in_queue db status term) db.questions))
          window limit offset rows))
    settle_all views

-- The earliest link of the question in a session of the user
abbrev mine : Db → Uuid → Uuid → Link → Bool
mine db id user_id l =
    l.question_id == id && any (λ s. s.id == l.session_id && s.user_id == user_id) db.sessions

abbrev first_of_links : Option Link → List Link
first_of_links none = []
first_of_links (some l) = l ∷ []

abbrev pub one_joined : List QuestionWithSession → Io QuestionWithSession
one_joined [] = throw no_rows
one_joined (x ∷ xs) = pure x

unfoldable pub find_for_user : Uuid → Uuid → Io QuestionWithSession
unfolding join first_link
find_for_user id user_id =
    map_err
      (λ e.
        if is_no_rows e
        then wrap "find user question" (domain err_not_found)
        else wrap "find user question" e)
      (query (do
        rows ← reading (λ db.
            join db.questions
              (first_of_links (first_link id (select (mine db id user_id) db.session_questions))))
        one_joined rows))
