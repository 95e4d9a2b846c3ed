-- ===== src/Api.antt =====
-- registerRoutes of internal/httpapi/server.go: each route with its handler behind its guards, and
-- the probes. What a handler reads of its request, the parameter :id, the query and the bound body,
-- is the route's input.
pub mod Served
pub mod UsersKept
pub mod Lockout
use coeus.Prelude.{ℕ, String, Char, Bool, Option, none, some, Result, ok, err, List, ◌>>=◌, ◌>>◌}
use coeus.Domain.Types.{Uuid, Bytes, Vector}
use coeus.Domain.Errors.{GoError}
use coeus.Dto.Responses.{
  CreateSessionRequest, UpdateQuestionRequest, CreateQuestionRequest, UpdateUserRequest,
  SessionResponse, SessionDetailResponse, ImageUploadResponse, ImageResponse, UserResponse,
  ImportReportResponse,
}
use coeus.Storage.World.{User, World, Io}
use coeus.Importer.Parse.{CsvError, Workbook}
use coeus.Importer.Service.{EmbedBatch}
use coeus.Http.Tokens.{Claims, JwtManager}
use coeus.Http.Guards.{Reply, Identity}
use coeus.Http.Auth.{
  Credentials, AccountResponse, AuthResponse, register, login, refresh, internal_error,
}
use coeus.Http.Routes.{Route, Context, admit}
use coeus.Config.{UploadConfig}
use coeus.Handlers.Responses.{Sent, Handler, trying, sends, refuse}
use coeus.Handlers.Users.{
  PathId, UserQuery, UserListResponse, users_list, users_update, users_delete, users_reset_password,
  profile,
}
use coeus.Handlers.Sessions.{
  SessionListResponse, sessions_create, sessions_list, sessions_get, sessions_close,
}
use coeus.Handlers.Images.{images_upload, images_list}
use coeus.Handlers.Questions.{
  QuestionItem, QuestionListResponse, QuestionQuery, questions_list, questions_get,
}
use coeus.Handlers.Questions.Edit.{QuestionBody, questions_update, questions_delete}
use coeus.Handlers.Questions.Create.{Created, questions_create}
use coeus.Handlers.QuestionImport.{questions_upload}
use coeus.Handlers.Expert.{ImageFile, get_image, get_verification_report}

-- The libraries, the connection pool and the configuration that the handlers are built with
pub record Server : Type 0 where
  pub verify : String → Result GoError Claims
  pub signed_string : Claims → String → Result GoError String
  pub jwt_mgr : JwtManager
  pub hash_password : String → Result GoError String
  pub verify_password : String → String → Bool
  pub generate : Io String
  pub rehash : String → Io String
  pub ping : Io (Unit {0})
  pub lower : Char → Char
  pub json : List String → String
  pub sha256_hex : String → String
  pub is_email : String → Bool
  pub show_uuid : Uuid → String
  pub detect_content_type : Bytes → String
  pub decode_config : Bytes → Option (ℕ × ℕ)
  pub upload_cfg : UploadConfig
  pub embedder : Option (String → Io Vector)
  pub batch_embedder : Option EmbedBatch
  pub csv_records : Bytes → List (Result CsvError (List String))
  pub open_workbook : Bytes → Result GoError Workbook
  pub max_rows : ℕ

-- A body or a form that does not bind is `none`.
abbrev pub Input : Route → Type 0
Input Route.healthz = Unit
Input Route.readyz = Unit
Input Route.register = Option Credentials
Input Route.login = Option Credentials
Input Route.refresh = Unit
Input Route.profile = Unit
Input Route.session_create = Option CreateSessionRequest
Input Route.session_list = Option String × Option String
Input Route.session_get = Uuid
Input Route.session_close = Uuid
Input Route.image_upload = Uuid × Option Bytes
Input Route.image_list = Uuid
Input Route.user_list = UserQuery
Input Route.user_update = PathId × Option UpdateUserRequest
Input Route.user_delete = PathId
Input Route.user_reset_password = Uuid
Input Route.question_list = QuestionQuery
Input Route.question_get = Uuid
Input Route.question_create = Option CreateQuestionRequest
Input Route.question_upload = Option Bytes
Input Route.question_update = Uuid × Option UpdateQuestionRequest
Input Route.question_delete = Uuid
Input Route.image_get = Uuid
Input Route.verification_report_get = Uuid

abbrev pub Body : Route → Type 0
Body Route.healthz = String
Body Route.readyz = String
Body Route.register = AccountResponse
Body Route.login = AuthResponse
Body Route.refresh = AuthResponse
Body Route.profile = UserResponse
Body Route.session_create = SessionResponse
Body Route.session_list = SessionListResponse
Body Route.session_get = SessionDetailResponse
Body Route.session_close = Unit
Body Route.image_upload = ImageUploadResponse
Body Route.image_list = List ImageResponse
Body Route.user_list = UserListResponse
Body Route.user_update = UserResponse
Body Route.user_delete = Unit
Body Route.user_reset_password = String
Body Route.question_list = QuestionListResponse
Body Route.question_get = QuestionItem
Body Route.question_create = Created
Body Route.question_upload = ImportReportResponse
Body Route.question_update = QuestionBody
Body Route.question_delete = Unit
Body Route.image_get = ImageFile
Body Route.verification_report_get = String

-- c.Param("id") where SessionWindow reads it; no other route has that guard.
abbrev pub window_id : (route : Route) → Input route → Uuid
window_id Route.image_upload (id, _) = id
window_id Route.image_list id = id
window_id _ _ = 0

-- AuthMiddleware stands before these handlers. Where Refresh finds no user its `v.(*storage.User)`
-- panics, and Recover replies 500; the others would read an empty "user_id" instead.
abbrev pub for_caller : {A : Type 0} → Option Identity → (Identity → Handler A) → Handler A
for_caller none k = refuse (record { status = 500; error = internal_error })
for_caller (some i) k = k i

abbrev pub user_of : Option Identity → Option User
user_of none = none
user_of (some i) = some i.user

abbrev pub ready : Result GoError (Unit {0}) → Handler String
ready (ok _) = sends 200 "ready"
ready (err e) = sends 503 "not ready"

module _ (s : Server) where
  unfoldable pub readyz : Handler String
  readyz = do r ← trying s.ping; ready r

  unfoldable pub handle : (route : Route) → Input route → Context → Handler (Body route)
  unfolding readyz register login refresh profile sessions_create sessions_list sessions_get
      sessions_close images_upload images_list users_list users_update users_delete
      users_reset_password questions_list questions_get questions_create questions_upload
      questions_update questions_delete get_image get_verification_report
  handle Route.healthz _ ctx = sends 200 "ok"
  handle Route.readyz _ ctx = readyz
  handle Route.register body ctx = do r ← register s.hash_password body; sends 201 r
  handle Route.login body ctx = do
    r ← login s.signed_string s.jwt_mgr s.verify_password body
    sends 200 r
  handle Route.refresh _ ctx =
      for_caller ctx.identity λ i. do r ← refresh s.signed_string s.jwt_mgr i; sends 200 r
  handle Route.profile _ ctx = profile (user_of ctx.identity)
  handle Route.session_create body ctx = for_caller ctx.identity λ i. sessions_create i body
  handle Route.session_list (page, per_page) ctx =
      for_caller ctx.identity λ i. sessions_list i page per_page
  handle Route.session_get id ctx = for_caller ctx.identity λ i. sessions_get i id
  handle Route.session_close id ctx = for_caller ctx.identity λ i. sessions_close i id
  handle Route.image_upload (_, form) ctx =
      images_upload s.lower s.detect_content_type s.decode_config s.upload_cfg ctx.session form
  handle Route.image_list _ ctx = images_list ctx.session
  handle Route.user_list query ctx = users_list s.lower s.json query
  handle Route.user_update (id, body) ctx =
      for_caller ctx.identity λ i. users_update s.is_email s.show_uuid i id body
  handle Route.user_delete id ctx = for_caller ctx.identity λ i. users_delete s.show_uuid i id
  handle Route.user_reset_password id ctx = users_reset_password s.generate s.rehash id
  handle Route.question_list query ctx =
      for_caller ctx.identity λ i. questions_list s.lower s.json i query
  handle Route.question_get id ctx = for_caller ctx.identity λ i. questions_get i id
  handle Route.question_create body ctx =
      for_caller ctx.identity λ i. questions_create s.lower s.sha256_hex s.embedder i body
  handle Route.question_upload form ctx = for_caller ctx.identity λ i.
      questions_upload s.detect_content_type s.csv_records s.open_workbook s.lower s.sha256_hex
        s.batch_embedder s.max_rows i form
  handle Route.question_update (id, body) ctx =
      for_caller ctx.identity λ i. questions_update i id body
  handle Route.question_delete id ctx = questions_delete id
  handle Route.image_get id ctx = get_image id
  handle Route.verification_report_get id ctx = get_verification_report id

  -- `header` is the Authorization header.
  unfoldable pub serve : String → (route : Route) → Input route → Handler (Body route)
  unfolding admit handle
  serve header route input = do
    ctx ← admit s.verify header (window_id route input) route
    handle route input ctx
