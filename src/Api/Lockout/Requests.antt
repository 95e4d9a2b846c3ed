-- ===== src/Api/Lockout/Requests.antt =====
-- No request to internal/httpapi/server.go takes away the last active admin.
use coeus.Prelude.{
  List, Result, ok, err, ◌<◌, sym, subst, String, Option, none, some, ◌>>=◌, after, Outcome, ret,
  raise, final,
}
use coeus.Domain.Errors.{GoError}
use coeus.Storage.World.{Db, World, User}
use coeus.Storage.Keeps.{Keeps, Keeps-bind}
use coeus.Storage.UsersKept.{UsersAre}
use coeus.Storage.Users.Admins.{UniqueIds, admins}
use coeus.Http.Auth.{register, login, refresh}
use coeus.Http.Guards.{Reply, Identity}
use coeus.Http.Routes.{Route, Context, admit}
use coeus.Http.Routes.Refusals.{Guarded, admit-Guarded}
use coeus.Handlers.Responses.{Handler, sends}
use coeus.Handlers.Users.{users_update, users_delete, users_list, profile}
use coeus.Handlers.Sessions.{sessions_create, sessions_list, sessions_get, sessions_close}
use coeus.Handlers.Images.{images_upload, images_list}
use coeus.Handlers.Questions.{questions_list, questions_get}
use coeus.Handlers.Questions.Edit.{questions_update, questions_delete}
use coeus.Handlers.Questions.Create.{questions_create}
use coeus.Handlers.QuestionImport.{questions_upload}
use coeus.Handlers.Expert.{get_image, get_verification_report}
use coeus.Api.UsersKept.{
  Keeps-sends, Keeps-refuse, Keeps-trying, Keeps-users_list, Keeps-profile, Keeps-sessions_create,
  Keeps-sessions_list, Keeps-sessions_get, Keeps-sessions_close, Keeps-images_upload,
  Keeps-images_list, Keeps-get_image, Keeps-get_verification_report,
}
use coeus.Api.UsersKept.Questions.{
  EmbedsApart, Keeps-questions_list, Keeps-questions_get, Keeps-questions_update,
  Keeps-questions_delete, Keeps-questions_create,
}
use coeus.Api.UsersKept.Import.{BatchesApart, Keeps-questions_upload}
use coeus.Api.Lockout.{
  SomeAdmin, kept-SomeAdmin, register-SomeAdmin, login-SomeAdmin, refresh-SomeAdmin,
  users_reset_password-SomeAdmin, update-SomeAdmin, delete-SomeAdmin,
}
use coeus.Api.{Server, Input, window_id, for_caller, user_of, ready, readyz, handle, serve}

-- What the server is built with leaves the users alone.
pub record Apart (s : Server) : Type 0 where
  pub generates : (us : List User) → Keeps (UsersAre us) s.generate
  pub rehashes : (us : List User) (p : String) → Keeps (UsersAre us) (s.rehash p)
  pub pings : (us : List User) → Keeps (UsersAre us) s.ping
  pub embeds : (us : List User) → EmbedsApart s.embedder us
  pub batches : (us : List User) → BatchesApart s.batch_embedder us

Keeps-for_caller :
    {P : Db → Type 0} {A : Type 0} (who : Option Identity) (k : Identity → Handler A)
    → ((i : Identity) → Keeps P (k i))
    → Keeps P (for_caller who k)
Keeps-for_caller none k h = Keeps-refuse _
Keeps-for_caller (some i) k h = h i

module _ (s : Server) (apart : Apart s) where
  Keeps-readyz : (us : List User) → Keeps (UsersAre us) (readyz s)
  unfolding readyz
  Keeps-readyz us = Keeps-bind _ _ (Keeps-trying s.ping (apart.pings us)) replies
    where
      replies : (r : Result GoError Unit) → Keeps (UsersAre us) (ready r)
      replies (ok _) = Keeps-sends 200 _
      replies (err e) = Keeps-sends 503 _

  for_all :
      {A : Type 0} (who : Option Identity) (k : Identity → Handler A)
      → ((us : List User) (i : Identity) → Keeps (UsersAre us) (k i))
      → Keeps SomeAdmin (for_caller who k)
  for_all who k h = kept-SomeAdmin (for_caller who k) (λ us. Keeps-for_caller who k (h us))

  handle-SomeAdmin :
      (route : Route) (input : Input route) (ctx : Context) (w : World)
      → UniqueIds w.db.users
      → SomeAdmin w.db
      → SomeAdmin (final (handle s route input ctx w)).db
  unfolding handle
  handle-SomeAdmin Route.healthz _ ctx w unique h = h
  handle-SomeAdmin Route.readyz _ ctx w unique h = (kept-SomeAdmin (readyz s) Keeps-readyz).at w h
  handle-SomeAdmin Route.register body ctx w unique h =
      (Keeps-bind (register s.hash_password body) (sends 201)
          (register-SomeAdmin s.hash_password body) (λ r. Keeps-sends 201 r)).at
        w h
  handle-SomeAdmin Route.login body ctx w unique h =
      (Keeps-bind (login s.signed_string s.jwt_mgr s.verify_password body) (sends 200)
          (login-SomeAdmin s.signed_string s.jwt_mgr s.verify_password body)
          (λ r. Keeps-sends 200 r)).at
        w h
  handle-SomeAdmin Route.refresh _ ctx w unique h =
      (Keeps-for_caller ctx.identity (λ i. refresh s.signed_string s.jwt_mgr i >>= λ r. sends 200 r)
          (λ i.
            Keeps-bind (refresh s.signed_string s.jwt_mgr i) (sends 200)
              (refresh-SomeAdmin s.signed_string s.jwt_mgr i) (λ r. Keeps-sends 200 r))).at
        w h
  handle-SomeAdmin Route.profile _ ctx w unique h =
      (kept-SomeAdmin (profile (user_of ctx.identity))
          (λ us. Keeps-profile us (user_of ctx.identity))).at
        w h
  handle-SomeAdmin Route.session_create body ctx w unique h =
      (for_all ctx.identity (λ i. sessions_create i body)
          (λ us i. Keeps-sessions_create us i body)).at
        w h
  handle-SomeAdmin Route.session_list (page, per_page) ctx w unique h =
      (for_all ctx.identity (λ i. sessions_list i page per_page)
          (λ us i. Keeps-sessions_list us i page per_page)).at
        w h
  handle-SomeAdmin Route.session_get id ctx w unique h =
      (for_all ctx.identity (λ i. sessions_get i id) (λ us i. Keeps-sessions_get us i id)).at w h
  handle-SomeAdmin Route.session_close id ctx w unique h =
      (for_all ctx.identity (λ i. sessions_close i id) (λ us i. Keeps-sessions_close us i id)).at w
        h
  handle-SomeAdmin Route.image_upload (_, form) ctx w unique h =
      (kept-SomeAdmin
          (images_upload s.lower s.detect_content_type s.decode_config s.upload_cfg ctx.session
            form)
          (λ us.
            Keeps-images_upload us s.lower s.detect_content_type s.decode_config s.upload_cfg
              ctx.session form)).at
        w h
  handle-SomeAdmin Route.image_list _ ctx w unique h =
      (kept-SomeAdmin (images_list ctx.session) (λ us. Keeps-images_list us ctx.session)).at w h
  handle-SomeAdmin Route.user_list query ctx w unique h =
      (kept-SomeAdmin (users_list s.lower s.json query)
          (λ us. Keeps-users_list us s.lower s.json query)).at
        w h
  handle-SomeAdmin Route.user_update (id, body) ctx w unique h = updates ctx.identity
    where
      updates :
          (who : Option Identity)
          → SomeAdmin
              (final (for_caller who (λ i. users_update s.is_email s.show_uuid i id body) w)).db
      updates none = h
      updates (some i) = update-SomeAdmin s.is_email s.show_uuid i id body w unique h
  handle-SomeAdmin Route.user_delete id ctx w unique h = deletes ctx.identity
    where
      deletes :
          (who : Option Identity)
          → SomeAdmin (final (for_caller who (λ i. users_delete s.show_uuid i id) w)).db
      deletes none = h
      deletes (some i) = delete-SomeAdmin s.show_uuid i id w unique h
  handle-SomeAdmin Route.user_reset_password id ctx w unique h =
      (users_reset_password-SomeAdmin s.generate s.rehash id
          (kept-SomeAdmin s.generate apart.generates)
          (λ p. kept-SomeAdmin (s.rehash p) (λ us. apart.rehashes us p))).at
        w h
  handle-SomeAdmin Route.question_list query ctx w unique h =
      (for_all ctx.identity (λ i. questions_list s.lower s.json i query)
          (λ us i. Keeps-questions_list us s.lower s.json i query)).at
        w h
  handle-SomeAdmin Route.question_get id ctx w unique h =
      (for_all ctx.identity (λ i. questions_get i id) (λ us i. Keeps-questions_get us i id)).at w h
  handle-SomeAdmin Route.question_create body ctx w unique h =
      (for_all ctx.identity (λ i. questions_create s.lower s.sha256_hex s.embedder i body)
          (λ us i.
            Keeps-questions_create us s.lower s.sha256_hex s.embedder i body (apart.embeds us))).at
        w h
  handle-SomeAdmin Route.question_upload form ctx w unique h =
      (for_all ctx.identity
          (λ i.
            questions_upload s.detect_content_type s.csv_records s.open_workbook s.lower
              s.sha256_hex s.batch_embedder s.max_rows i form)
          (λ us i.
            Keeps-questions_upload us s.detect_content_type s.csv_records s.open_workbook s.lower
              s.sha256_hex s.batch_embedder s.max_rows (apart.batches us) i form)).at
        w h
  handle-SomeAdmin Route.question_update (id, body) ctx w unique h =
      (for_all ctx.identity (λ i. questions_update i id body)
          (λ us i. Keeps-questions_update us i id body)).at
        w h
  handle-SomeAdmin Route.question_delete id ctx w unique h =
      (kept-SomeAdmin (questions_delete id) (λ us. Keeps-questions_delete us id)).at w h
  handle-SomeAdmin Route.image_get id ctx w unique h =
      (kept-SomeAdmin (get_image id) (λ us. Keeps-get_image us id)).at w h
  handle-SomeAdmin Route.verification_report_get id ctx w unique h =
      (kept-SomeAdmin (get_verification_report id) (λ us. Keeps-get_verification_report us id)).at w
        h

  -- Whatever the route, its input and the sender are, and whatever the database refuses: where ids
  -- are unique and what the server is built with leaves the users alone, a request leaves an active
  -- admin if there was one.
  pub serve-admins :
      (header : String) (route : Route) (input : Input route) (w : World)
      → UniqueIds w.db.users
      → 0 < admins w.db
      → 0 < admins (final (serve s header route input w)).db
  unfolding serve
  serve-admins header route input w unique h =
      by (admit s.verify header (window_id route input) route w)
        (admit-Guarded s.verify header (window_id route input) route w)
    where
      by :
          (o : Outcome Reply World Context)
          → Guarded w.db o
          → 0 < admins (final (after o λ ctx. handle s route input ctx)).db
      by (ret ctx w') same =
          handle-SomeAdmin route input ctx w' (subst (λ db. UniqueIds db.users) (sym same) unique)
            (subst SomeAdmin (sym same) h)
      by (raise reply w') (r, same) = subst SomeAdmin (sym same) h
