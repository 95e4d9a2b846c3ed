-- ===== src/Storage/UsersKept.antt =====
-- The calls of the repositories of users that read, and those of sessions, images and jobs, under
-- "the users are as they were".
pub mod Questions
use coeus.Prelude.{
  ℕ, ℤ, pos, negsuc, ◌≡◌, String, Char, Bool, true, false, Option, none, some, List, [], ◌∷◌, ◌>>=◌,
  ◌>>◌, ◌==◌, map_err, Option-cases, inl, inr,
}
use coeus.Domain.Types.{Uuid, Float, Vector, Image, Job, Session, Question, QuestionUpdate, Bytes}
use coeus.Domain.Errors.{wrap}
use coeus.Storage.World.{Db, User, Io, pure, query, reading, writing}
use coeus.Storage.Keeps.{Keeps, keeps_rules, Keeps-writing, Keeps-pure}
use coeus.Storage.Users.{create, find_by_id, find_by_email, find_row, one_row}
use coeus.Storage.Users.Listing.{UserFilter, list_users}
use coeus.Storage.Sessions.{
  create_session, find_session, list_sessions, close_session, window, one_session, insert_session,
}
use coeus.Storage.Images.{
  create_image, list_images, count_by_session, find_image, one_image, insert_image,
}
use coeus.Storage.Jobs.{enqueue, insert_job, notify, find_job_statuses_by_session}
use coeus.Storage.Questions.{
  create_question, insert_question, row_check, link_tag, link_tags, find_exact, find_question,
  one_question,
}
use coeus.Storage.Questions.Import.{upsert_from_import, upsert_row, upsert_arm}
use coeus.Storage.Questions.Expert.{
  update_by_expert, edit_row, clean_image, clean_images, cleanup_image_bytes, delete_question,
  remove_question,
}
use coeus.Storage.Questions.Views.{
  QuestionWithSession, QuestionExpertView, list_for_session, list_for_moderation, find_for_user,
  settle_all, settle_tags, one_joined,
}
use coeus.Storage.Questions.Views.Refetch.{keeps_settled}

abbrev pub UsersAre : List User → Db → Type 0
UsersAre us db = db.users ≡ us

module _ (us : List User) where
  Keeps-one_row : {A : Type 0} (r : Option A) → Keeps (UsersAre us) (one_row r)
  Keeps-one_row none = search keeps_rules
  Keeps-one_row (some r) = Keeps-pure r

  pub Keeps-find_by_id : (id : Uuid) → Keeps (UsersAre us) (find_by_id id)
  unfolding find_by_id
  Keeps-find_by_id id = search (keeps_rules, Keeps-one_row) depth 9

  pub Keeps-find_by_email : (email : String) → Keeps (UsersAre us) (find_by_email email)
  unfolding find_by_email
  Keeps-find_by_email email = search (keeps_rules, Keeps-one_row) depth 9

  pub Keeps-window :
      {A : Type 0} (limit offset : ℤ) (rows : List A)
      → Keeps (UsersAre us) (window limit offset rows)
  Keeps-window (pos limit) (pos offset) rows = search keeps_rules
  Keeps-window (negsuc n) offset rows = search keeps_rules
  Keeps-window (pos n) (negsuc m) rows = search keeps_rules

  pub Keeps-list_users :
      (lower : Char → Char) (json : List String → String) (f : UserFilter) (limit offset : ℤ)
      → Keeps (UsersAre us) (list_users lower json f limit offset)
  unfolding list_users
  Keeps-list_users lower json f limit offset = search (keeps_rules, Keeps-window) depth 9

  pub Keeps-create_session :
      (user_id : Uuid) (duration buffer : ℕ)
      → Keeps (UsersAre us) (create_session user_id duration buffer)
  unfolding create_session insert_session
  Keeps-create_session user_id duration buffer = search (keeps_rules, Keeps-writing) depth 14

  Keeps-one_session : (s : Option Session) → Keeps (UsersAre us) (one_session s)
  Keeps-one_session none = search keeps_rules
  Keeps-one_session (some s) = Keeps-pure s

  pub Keeps-find_session : (id : Uuid) → Keeps (UsersAre us) (find_session id)
  unfolding find_session
  Keeps-find_session id = search (keeps_rules, Keeps-one_session) depth 9

  pub Keeps-list_sessions :
      (user_id : Uuid) (limit offset : ℤ) → Keeps (UsersAre us) (list_sessions user_id limit offset)
  unfolding list_sessions
  Keeps-list_sessions user_id limit offset = search (keeps_rules, Keeps-window) depth 9

  pub Keeps-close_session : (id : Uuid) → Keeps (UsersAre us) (close_session id)
  unfolding close_session
  Keeps-close_session id = search (keeps_rules, Keeps-writing) depth 12

  pub Keeps-create_image :
      (session_id : Uuid) (original : Bytes) (mime : String) (width height : ℕ)
      → Keeps (UsersAre us) (create_image session_id original mime width height)
  unfolding create_image insert_image
  Keeps-create_image session_id original mime width height =
      search (keeps_rules, Keeps-writing) depth 14

  Keeps-one_image : (i : Option Image) → Keeps (UsersAre us) (one_image i)
  Keeps-one_image none = search keeps_rules
  Keeps-one_image (some i) = Keeps-pure i

  pub Keeps-find_image : (id : Uuid) → Keeps (UsersAre us) (find_image id)
  unfolding find_image
  Keeps-find_image id = search (keeps_rules, Keeps-one_image) depth 9

  pub Keeps-list_images : (session_id : Uuid) → Keeps (UsersAre us) (list_images session_id)
  unfolding list_images
  Keeps-list_images session_id = search keeps_rules depth 9

  pub Keeps-count_by_session :
      (session_id : Uuid) → Keeps (UsersAre us) (count_by_session session_id)
  unfolding count_by_session
  Keeps-count_by_session session_id = search keeps_rules depth 9

  Keeps-notify : Keeps (UsersAre us) notify
  Keeps-notify = record { at = λ w h. h }

  pub Keeps-enqueue :
      (image_id session_id : Uuid) → Keeps (UsersAre us) (enqueue image_id session_id)
  unfolding enqueue insert_job
  Keeps-enqueue image_id session_id = search (keeps_rules, Keeps-writing, Keeps-notify) depth 14

  pub Keeps-find_job_statuses_by_session :
      (session_id : Uuid) → Keeps (UsersAre us) (find_job_statuses_by_session session_id)
  unfolding find_job_statuses_by_session
  Keeps-find_job_statuses_by_session session_id = search keeps_rules depth 9

  pub Keeps-find_exact : (hash : String) → Keeps (UsersAre us) (find_exact hash)
  unfolding find_exact
  Keeps-find_exact hash = search keeps_rules depth 9
