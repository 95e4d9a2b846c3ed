-- ===== src/Api/UsersKept/Questions.antt =====
-- The handlers of internal/httpapi/handlers/questions.go, which leave the
-- users as they are.
use coeus.Prelude.{String, Char, Option, none, some, List}
use coeus.Domain.Types.{Uuid, Vector, Session, Question}
use coeus.Dto.Responses.{UpdateQuestionRequest, CreateQuestionRequest}
use coeus.Storage.World.{User, Io}
use coeus.Storage.Keeps.{Keeps}
use coeus.Storage.UsersKept.{UsersAre, Keeps-find_exact, Keeps-find_session}
use coeus.Storage.UsersKept.Questions.{
  Keeps-create_question, Keeps-update_by_expert, Keeps-delete_question, Keeps-list_for_session,
  Keeps-list_for_moderation, Keeps-find_for_user,
}
use coeus.Storage.Questions.Views.Refetch.{Keeps-find_expert}
use coeus.Http.Guards.{Identity}
use coeus.Handlers.Paging.{Paging}
use coeus.Handlers.Responses.{Handler}
use coeus.Handlers.Questions.{
  QuestionQuery, list_session_scope, list_moderation_queue, user_gate, scoped, questions_list,
  questions_get,
}
use coeus.Handlers.Questions.Edit.{questions_update, questions_delete}
use coeus.Handlers.Questions.Create.{
  questions_create, store_authored, embed_best_effort, unless_known,
}
use coeus.Api.UsersKept.{handler_rules, Keeps-sends, Keeps-refuse, Keeps-passing}

-- The remote embedder leaves the users alone.
abbrev pub EmbedsApart : Option (String → Io Vector) → List User → Type 0
EmbedsApart none us = Unit
EmbedsApart (some embed) us = (text : String) → Keeps (UsersAre us) (embed text)

module _ (us : List User) where
  Keeps-user_gate : (user_id : Uuid) (sess : Session) → Keeps (UsersAre us) (user_gate user_id sess)
  unfolding user_gate
  Keeps-user_gate user_id sess = search handler_rules depth 9

  Keeps-list_session_scope :
      (caller : Identity) (status : String) (session_id : Uuid) (p : Paging)
      → Keeps (UsersAre us) (list_session_scope caller status session_id p)
  unfolding list_session_scope
  Keeps-list_session_scope caller status session_id p =
      search (handler_rules, Keeps-find_session, Keeps-list_for_session, Keeps-user_gate) depth 14

  module _ (lower : Char → Char) (json : List String → String) where
    Keeps-list_moderation_queue :
        (caller : Identity) (status term : String) (p : Paging)
        → Keeps (UsersAre us) (list_moderation_queue lower json caller status term p)
    unfolding list_moderation_queue
    Keeps-list_moderation_queue caller status term p =
        search (handler_rules, Keeps-list_for_moderation) depth 12

    Keeps-scoped :
        (caller : Identity) (query : QuestionQuery) (id : Option Uuid) (p : Paging)
        → Keeps (UsersAre us) (scoped lower json caller query id p)
    Keeps-scoped caller query none p = Keeps-list_moderation_queue caller _ _ p
    Keeps-scoped caller query (some id) p = Keeps-list_session_scope caller _ id p

    pub Keeps-questions_list :
        (caller : Identity) (query : QuestionQuery)
        → Keeps (UsersAre us) (questions_list lower json caller query)
    unfolding questions_list
    Keeps-questions_list caller query = search (handler_rules, Keeps-scoped) depth 9

  pub Keeps-questions_get :
      (caller : Identity) (id : Uuid) → Keeps (UsersAre us) (questions_get caller id)
  unfolding questions_get
  Keeps-questions_get caller id =
      search (handler_rules, Keeps-find_expert (UsersAre us), Keeps-find_for_user) depth 12

  pub Keeps-questions_update :
      (caller : Identity) (id : Uuid) (body : Option UpdateQuestionRequest)
      → Keeps (UsersAre us) (questions_update caller id body)
  unfolding questions_update
  Keeps-questions_update caller id none = Keeps-refuse _
  Keeps-questions_update caller id (some req) =
      search (handler_rules, Keeps-update_by_expert, Keeps-find_expert (UsersAre us)) depth 20

  pub Keeps-questions_delete : (id : Uuid) → Keeps (UsersAre us) (questions_delete id)
  unfolding questions_delete
  Keeps-questions_delete id = search (handler_rules, Keeps-delete_question) depth 9

  module _ (lower : Char → Char) (sha256_hex : String → String) where
    Keeps-embed_best_effort :
        (embedder : Option (String → Io Vector))
        → EmbedsApart embedder us
        → (text : String) → Keeps (UsersAre us) (embed_best_effort lower sha256_hex embedder text)
    unfolding embed_best_effort
    Keeps-embed_best_effort none apart text = Keeps-passing none
    Keeps-embed_best_effort (some embed) apart text = search (handler_rules, apart) depth 9

    Keeps-unless_known :
        (embedder : Option (String → Io Vector)) (known : Option Question) (more : Handler _)
        → Keeps (UsersAre us) more
        → Keeps (UsersAre us) (unless_known lower sha256_hex embedder known more)
    Keeps-unless_known embedder none more k = k
    Keeps-unless_known embedder (some q) more k = Keeps-sends 409 _

    pub Keeps-questions_create :
        (embedder : Option (String → Io Vector)) (caller : Identity)
        (body : Option CreateQuestionRequest)
        → EmbedsApart embedder us
        → Keeps (UsersAre us) (questions_create lower sha256_hex embedder caller body)
    unfolding questions_create store_authored
    Keeps-questions_create embedder caller none apart = Keeps-refuse _
    Keeps-questions_create embedder caller (some req) apart =
        search
          (
            handler_rules,
            Keeps-find_exact us,
            Keeps-unless_known embedder,
            Keeps-embed_best_effort embedder apart,
            Keeps-create_question us,
            Keeps-find_expert (UsersAre us),
          )
          depth 20
