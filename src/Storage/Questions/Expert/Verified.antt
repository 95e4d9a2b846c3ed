-- ===== src/Storage/Questions/Expert/Verified.antt =====
-- Which questions carry the time and the author of a verification, after the edits of
-- internal/storage/postgres/question_repo.go and question_import.go.
use coeus.Prelude.{
  ◌≡◌, refl, String, Bool, true, false, Option, none, some, List, [], ◌∷◌, arith, str_eq, All,
  All-update, update, final, Bool-cases, inl, inr, map_err,
}
use coeus.Domain.Types.{Uuid, Instant, Question, QuestionUpdate}
use coeus.Domain.Errors.{wrap}
use coeus.Storage.World.{Db, World, writing}
use coeus.Storage.Keeps.{Keeps, keeps_rules, Keeps-writing, Keeps-then}
use coeus.Storage.Images.{with_images, is_image, clean}
use coeus.Storage.Questions.{with_questions, is_question, link_tag, link_tags, add_tag}
use coeus.Storage.Questions.Import.{drop_tags}
use coeus.Storage.Questions.Expert.{
  edit, edit_row, edit_known, update_by_expert, cleanup_image_bytes, clean_images, clean_image,
}

abbrev is_some : {A : Type 0} → Option A → Bool
is_some none = false
is_some (some a) = true

-- The time stands on the verified questions and on no others.
abbrev pub Stamped : Question → Type 0
Stamped q = is_some q.verified_at ≡ str_eq q.status "verified"

abbrev pub AllStamped : Db → Type 0
AllStamped db = All Stamped db.questions

edit-Stamped :
    (at : Instant) (upd : QuestionUpdate) (expert_id : Uuid) (q : Question)
    → Stamped (edit at upd expert_id q)
edit-Stamped at upd expert_id q = elim (Bool-cases (str_eq upd.status "verified")) [
  | inl e ↦ rw e refl
  | inr e ↦ rw e refl
]

edits :
    (id : Uuid) (upd : QuestionUpdate) (expert_id : Uuid) (at : Instant)
    → Keeps AllStamped (writing (with_questions (update (is_question id) (edit at upd expert_id))))
edits id upd expert_id at =
    Keeps-writing (with_questions (update (is_question id) (edit at upd expert_id))) λ db h.
      All-update Stamped (is_question id) (edit at upd expert_id) db.questions
        (λ q _. edit-Stamped at upd expert_id q) h

-- A statement that leaves the questions alone
untouched :
    (f : Db → Db) → ((db : Db) → (f db).questions ≡ db.questions) → Keeps AllStamped (writing f)
untouched f same = Keeps-writing f λ db h. rw (same db) h

Keeps-edit_row :
    (id : Uuid) (upd : QuestionUpdate) (expert_id : Uuid)
    → Keeps AllStamped (edit_row id upd expert_id)
unfolding edit_row edit_known
Keeps-edit_row id upd expert_id = search (keeps_rules, edits id upd expert_id) depth 12

tags : (id : Uuid) (name : String) → Keeps AllStamped (writing (add_tag id name))
tags id name = untouched (add_tag id name) λ db. ground arith

Keeps-link_tags : (id : Uuid) (names : List String) → Keeps AllStamped (link_tags id names)
unfolding link_tags link_tag
Keeps-link_tags id [] = search keeps_rules
Keeps-link_tags id (name ∷ names) =
    Keeps-then (map_err (wrap "link tag") (link_tag id name)) (link_tags id names)
      (search (keeps_rules, tags) depth 12) (Keeps-link_tags id names)

cleans : (i : Uuid) → Keeps AllStamped (writing (with_images (update (is_image i) clean)))
cleans i = untouched (with_images (update (is_image i) clean)) λ db. refl

Keeps-clean_images : (is : List Uuid) → Keeps AllStamped (clean_images is)
unfolding clean_images
Keeps-clean_images [] = search keeps_rules
Keeps-clean_images (i ∷ is) =
    Keeps-then (clean_image i) (clean_images is) (search (keeps_rules, cleans) depth 12)
      (Keeps-clean_images is)

Keeps-cleanup : (id : Uuid) → Keeps AllStamped (cleanup_image_bytes id)
unfolding cleanup_image_bytes
Keeps-cleanup id = search (keeps_rules, Keeps-clean_images) depth 12

drops : (id : Uuid) → Keeps AllStamped (writing (drop_tags id))
drops id = untouched (drop_tags id) λ db. refl

-- Where the time of verification stands on the verified questions and on no others before an expert's
-- edit, it does so after it, whether the edit succeeds, is refused or meets a failing database.
pub update_by_expert-AllStamped :
    (id : Uuid) (upd : QuestionUpdate) (expert_id : Uuid) (w : World)
    → AllStamped w.db
    → AllStamped (final (update_by_expert id upd expert_id w)).db
unfolding update_by_expert
update_by_expert-AllStamped id upd expert_id w h =
    let k : Keeps AllStamped (update_by_expert id upd expert_id) =
      search (keeps_rules, Keeps-edit_row, drops, Keeps-link_tags, Keeps-cleanup) depth 20 in
    k.at w h
