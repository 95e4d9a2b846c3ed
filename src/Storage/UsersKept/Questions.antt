-- ===== src/Storage/UsersKept/Questions.antt =====
-- The calls of internal/storage/postgres/question_repo.go and question_import.go under "the users are
-- as they were".
use coeus.Prelude.{
  ℤ, String, Char, Option, none, some, List, [], ◌∷◌, ◌>>=◌, map_err, inl, inr, Bool-cases,
}
use coeus.Domain.Types.{Uuid, Question, QuestionUpdate}
use coeus.Domain.Errors.{wrap}
use coeus.Storage.World.{User, pure, writing}
use coeus.Storage.Keeps.{
  Keeps, keeps_rules, Keeps-writing, Keeps-pure, Keeps-then, Keeps-bind, Keeps-map_err,
}
use coeus.Storage.Questions.{
  create_question, insert_question, row_check, link_tag, link_tags, find_question, one_question,
  add_tag, has_tag,
}
use coeus.Storage.Questions.Import.{upsert_from_import, upsert_row, upsert_arm}
use coeus.Storage.Questions.Expert.{
  update_by_expert, edit_row, edit_known, clean_image, clean_images, cleanup_image_bytes,
  delete_question, remove_question,
}
use coeus.Storage.Questions.Views.{
  QuestionWithSession, QuestionExpertView, list_for_session, list_for_moderation, find_for_user,
  settle_all, settle_tags, one_joined,
}
use coeus.Storage.UsersKept.{UsersAre, Keeps-window}
use coeus.Storage.Questions.Views.Refetch.{keeps_settled}

module _ (us : List User) where
  Keeps-row_check : (q : Question) → Keeps (UsersAre us) (row_check q)
  unfolding row_check
  Keeps-row_check q = search keeps_rules depth 14

  Keeps-insert_question : (q : Question) → Keeps (UsersAre us) (insert_question q)
  unfolding insert_question
  Keeps-insert_question q = search (keeps_rules, Keeps-row_check, Keeps-writing) depth 14

  tag_added : (id : Uuid) (name : String) → Keeps (UsersAre us) (writing (add_tag id name))
  tag_added id name = record {
    at = λ w h. elim (Bool-cases (has_tag id name w.db)) [
      | inl have ↦ rw have h
      | inr lacks ↦ rw lacks h
    ];
  }

  Keeps-link_tag : (id : Uuid) (name : String) → Keeps (UsersAre us) (link_tag id name)
  unfolding link_tag
  Keeps-link_tag id name = search (keeps_rules, tag_added) depth 9

  Keeps-link_tags : (id : Uuid) (names : List String) → Keeps (UsersAre us) (link_tags id names)
  unfolding link_tags
  Keeps-link_tags id [] = Keeps-pure tt
  Keeps-link_tags id (name ∷ names) =
      Keeps-then (map_err (wrap "link tag") (link_tag id name)) (link_tags id names)
        (Keeps-map_err (wrap "link tag") (link_tag id name) (Keeps-link_tag id name))
        (Keeps-link_tags id names)

  pub Keeps-create_question : (q : Question) → Keeps (UsersAre us) (create_question q)
  unfolding create_question
  Keeps-create_question q = search (keeps_rules, Keeps-insert_question, Keeps-link_tags) depth 12

  Keeps-upsert_arm : (q : Question) (old : Option Question) → Keeps (UsersAre us) (upsert_arm q old)
  Keeps-upsert_arm q none = search (keeps_rules, Keeps-insert_question) depth 9
  Keeps-upsert_arm q (some old) = search (keeps_rules, Keeps-row_check, Keeps-writing) depth 12

  pub Keeps-upsert_from_import : (q : Question) → Keeps (UsersAre us) (upsert_from_import q)
  unfolding upsert_from_import upsert_row
  Keeps-upsert_from_import q =
      search (keeps_rules, Keeps-upsert_arm, Keeps-link_tags, Keeps-writing) depth 16

  Keeps-edit_row :
      (id : Uuid) (upd : QuestionUpdate) (expert_id : Uuid)
      → Keeps (UsersAre us) (edit_row id upd expert_id)
  unfolding edit_row edit_known
  Keeps-edit_row id upd expert_id = search (keeps_rules, Keeps-writing) depth 14

  Keeps-clean_images : (is : List Uuid) → Keeps (UsersAre us) (clean_images is)
  unfolding clean_images
  Keeps-clean_images [] = Keeps-pure tt
  Keeps-clean_images (i ∷ is) =
      Keeps-then (clean_image i) (clean_images is) (search (keeps_rules, Keeps-writing) depth 12)
        (Keeps-clean_images is)

  pub Keeps-update_by_expert :
      (id : Uuid) (upd : QuestionUpdate) (expert_id : Uuid)
      → Keeps (UsersAre us) (update_by_expert id upd expert_id)
  unfolding update_by_expert cleanup_image_bytes
  Keeps-update_by_expert id upd expert_id =
      search (keeps_rules, Keeps-edit_row, Keeps-clean_images, Keeps-link_tags, Keeps-writing) depth
        20

  Keeps-one_question : (q : Option Question) → Keeps (UsersAre us) (one_question q)
  Keeps-one_question none = search keeps_rules
  Keeps-one_question (some q) = Keeps-pure q

  removed : (id : Uuid) → Keeps (UsersAre us) (writing (remove_question id))
  unfolding remove_question
  removed id = record { at = λ w h. h }

  pub Keeps-delete_question : (id : Uuid) → Keeps (UsersAre us) (delete_question id)
  unfolding delete_question find_question
  Keeps-delete_question id = search (keeps_rules, Keeps-one_question, removed) depth 14

  pub Keeps-list_for_session :
      (session_id : Uuid) (status : String) (limit offset : ℤ)
      → Keeps (UsersAre us) (list_for_session session_id status limit offset)
  unfolding list_for_session
  Keeps-list_for_session session_id status limit offset = search (keeps_rules, Keeps-window) depth 9

  Keeps-settle_all : (evs : List QuestionExpertView) → Keeps (UsersAre us) (settle_all evs)
  unfolding settle_all
  Keeps-settle_all [] = Keeps-pure []
  Keeps-settle_all (ev ∷ evs) =
      Keeps-bind (settle_tags ev) (λ ev'. settle_all evs >>= λ rest. pure (ev' ∷ rest))
        (keeps_settled (UsersAre us) ev) (λ ev'. search (keeps_rules, Keeps-settle_all evs) depth 9)

  pub Keeps-list_for_moderation :
      (lower : Char → Char) (json : List String → String) (status term : String) (limit offset : ℤ)
      → Keeps (UsersAre us) (list_for_moderation lower json status term limit offset)
  unfolding list_for_moderation
  Keeps-list_for_moderation lower json status term limit offset =
      search (keeps_rules, Keeps-window, Keeps-settle_all) depth 12

  Keeps-one_joined : (xs : List QuestionWithSession) → Keeps (UsersAre us) (one_joined xs)
  Keeps-one_joined [] = search keeps_rules
  Keeps-one_joined (x ∷ xs) = Keeps-pure x

  pub Keeps-find_for_user : (id user_id : Uuid) → Keeps (UsersAre us) (find_for_user id user_id)
  unfolding find_for_user
  Keeps-find_for_user id user_id = search (keeps_rules, Keeps-one_joined) depth 9
