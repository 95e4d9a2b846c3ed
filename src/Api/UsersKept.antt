-- ===== src/Api/UsersKept.antt =====
-- The handlers of internal/httpapi/handlers that leave the users as they are.
pub mod Questions
pub mod Import
use coeus.Prelude.{
  ℕ, ℤ, pos, ◌≡◌, String, Char, Bool, true, false, Option, none, some, Result, ok, err, List, [],
  ◌∷◌, ◌>>=◌, ◌>>◌, map, map_err, gets, Outcome, ret, raise, final, length, Exec,
}
use coeus.Domain.Types.{Uuid, Float, Vector, Bytes, Session, Question}
use coeus.Domain.Errors.{GoError}
use coeus.Dto.Responses.{CreateSessionRequest, UpdateQuestionRequest, CreateQuestionRequest}
use coeus.Storage.World.{Db, World, User, Io}
use coeus.Storage.Keeps.{Keeps, keeps_rules, Keeps-bind}
use coeus.Storage.UsersKept.{
  UsersAre, Keeps-list_users, Keeps-create_session, Keeps-find_session, Keeps-list_sessions,
  Keeps-close_session, Keeps-create_image, Keeps-find_image, Keeps-list_images,
  Keeps-count_by_session, Keeps-enqueue, Keeps-find_job_statuses_by_session,
}
use coeus.Storage.Questions.Views.Refetch.{Keeps-find_expert}
use coeus.Http.Guards.{Reply, Identity, passing, answering}
use coeus.Handlers.Paging.{Paging}
use coeus.Handlers.Responses.{Sent, Handler, trying, kept, sends, refuse}
use coeus.Handlers.Users.{UserQuery, users_list, profile}
use coeus.Handlers.Sessions.{created, sessions_create, sessions_list, sessions_get, sessions_close}
use coeus.Handlers.Images.{upload_file, images_upload, images_list}
use coeus.Handlers.Questions.{
  QuestionQuery, list_session_scope, list_moderation_queue, user_gate, questions_list,
  questions_get, is_expert,
}
use coeus.Handlers.Questions.Edit.{questions_update, questions_delete, accepted}
use coeus.Handlers.Questions.Create.{
  questions_create, store_authored, embed_best_effort, unless_known,
}
use coeus.Handlers.Expert.{get_image, get_verification_report, send_original}
use coeus.Config.{UploadConfig}

module _ {A : Type 0} where
  keeps_kept :
      (P : Db → Type 0) (o : Outcome GoError World A) → P (final o).db → P (final (kept o)).db
  keeps_kept P (ret a w) h = h
  keeps_kept P (raise e w) h = h

module _ {P : Db → Type 0} {A : Type 0} where
  pub Keeps-sends : (status : ℕ) (body : A) → Keeps P (sends status body)
  Keeps-sends status body = record { at = λ w h. h }

  pub Keeps-refuse : (reply : Reply) → Keeps P (refuse {A = A} reply)
  Keeps-refuse reply = record { at = λ w h. h }

  pub Keeps-passing : (a : A) → Keeps P (passing a)
  Keeps-passing a = record { at = λ w h. h }

  pub Keeps-gets : (f : World → A) → Keeps P (gets {E = Reply} f)
  Keeps-gets f = record { at = λ w h. h }

  pub Keeps-trying : (m : Io A) → Keeps P m → Keeps P (trying m)
  Keeps-trying m k = record { at = λ w h. keeps_kept P (m w) (k.at w h) }

  pub Keeps-accepted : (a : Option A) → Keeps P (accepted a)
  Keeps-accepted none = Keeps-refuse _
  Keeps-accepted (some a) = Keeps-passing a

pub ruleset handler_rules = (
  keeps_rules, Keeps-sends, Keeps-refuse, Keeps-passing, Keeps-gets, Keeps-trying, Keeps-accepted,
)

module _ (us : List User) where
  pub Keeps-users_list :
      (lower : Char → Char) (json : List String → String) (query : UserQuery)
      → Keeps (UsersAre us) (users_list lower json query)
  unfolding users_list
  Keeps-users_list lower json query = search (handler_rules, Keeps-list_users) depth 9

  pub Keeps-profile : (user : Option User) → Keeps (UsersAre us) (profile user)
  unfolding profile
  Keeps-profile none = Keeps-refuse _
  Keeps-profile (some user) = Keeps-sends 200 _

  Keeps-created :
      (caller : Identity) (lengths : Option (ℕ × ℕ)) → Keeps (UsersAre us) (created caller lengths)
  Keeps-created caller none = Keeps-refuse _
  Keeps-created caller (some (duration, buffer)) =
      search (handler_rules, Keeps-create_session) depth 9

  pub Keeps-sessions_create :
      (caller : Identity) (body : Option CreateSessionRequest)
      → Keeps (UsersAre us) (sessions_create caller body)
  unfolding sessions_create
  Keeps-sessions_create caller none = Keeps-refuse _
  Keeps-sessions_create caller (some req) = Keeps-created caller _

  pub Keeps-sessions_list :
      (caller : Identity) (page per_page : Option String)
      → Keeps (UsersAre us) (sessions_list caller page per_page)
  unfolding sessions_list
  Keeps-sessions_list caller page per_page = search (handler_rules, Keeps-list_sessions) depth 9

  pub Keeps-sessions_get :
      (caller : Identity) (id : Uuid) → Keeps (UsersAre us) (sessions_get caller id)
  unfolding sessions_get
  Keeps-sessions_get caller id =
      search (handler_rules, Keeps-find_session, Keeps-count_by_session) depth 12

  pub Keeps-sessions_close :
      (caller : Identity) (id : Uuid) → Keeps (UsersAre us) (sessions_close caller id)
  unfolding sessions_close
  Keeps-sessions_close caller id =
      search (handler_rules, Keeps-find_session, Keeps-close_session) depth 12

  module _ (lower : Char → Char) (detect : Bytes → String) (decode : Bytes → Option (ℕ × ℕ))
      (cfg : UploadConfig) where
    pub Keeps-images_upload :
        (session : Option Session) (form : Option Bytes)
        → Keeps (UsersAre us) (images_upload lower detect decode cfg session form)
    unfolding images_upload upload_file
    Keeps-images_upload none form = Keeps-refuse _
    Keeps-images_upload (some session) none = Keeps-refuse _
    Keeps-images_upload (some session) (some file) =
        search (handler_rules, Keeps-create_image, Keeps-enqueue) depth 12

  pub Keeps-images_list : (session : Option Session) → Keeps (UsersAre us) (images_list session)
  unfolding images_list
  Keeps-images_list none = Keeps-refuse _
  Keeps-images_list (some session) =
      search (handler_rules, Keeps-list_images, Keeps-find_job_statuses_by_session) depth 12

  Keeps-send_original :
      (mime : String) (original : Option Bytes) → Keeps (UsersAre us) (send_original mime original)
  Keeps-send_original mime none = Keeps-refuse _
  Keeps-send_original mime (some original) = Keeps-sends 200 _

  pub Keeps-get_image : (id : Uuid) → Keeps (UsersAre us) (get_image id)
  unfolding get_image
  Keeps-get_image id = search (handler_rules, Keeps-find_image, Keeps-send_original) depth 9

  pub Keeps-get_verification_report : (id : Uuid) → Keeps (UsersAre us) (get_verification_report id)
  unfolding get_verification_report
  Keeps-get_verification_report id = search (handler_rules, Keeps-find_image) depth 9
