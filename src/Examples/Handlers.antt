-- ===== src/Examples/Handlers.antt =====
-- Requests to the handlers.
use coeus.Prelude.{
  ℕ, ◌≤◌, ◌≡◌, refl, String, Char, true, none, some, Option, [], ◌∷◌, pos, arith, Always,
}
use coeus.Domain.Types.{Bytes, Vector}
use coeus.Domain.Errors.{plain}
use coeus.Storage.World.{Io, throw}
use coeus.Http.Guards.{Identity}
use coeus.Dto.Responses.{CreateQuestionRequest}
use coeus.Config.{UploadConfig}
use coeus.Handlers.Paging.{parse_paging}
use coeus.Handlers.Sessions.{sessions_close, sessions_list}
use coeus.Handlers.Sessions.Owner.{Closing, sessions_close-Closing}
use coeus.Handlers.Sessions.Pages.{IsPage, sessions_list-IsPage}
use coeus.Handlers.Images.{images_upload}
use coeus.Handlers.Images.Queued.{Upload, images_upload-Upload}
use coeus.Handlers.Questions.Create.{questions_create}
use coeus.Handlers.Questions.Authored.{Creating, questions_create-Creating}
use coeus.Examples.Data.{user, session, world}

abbrev caller : ℕ → String → Identity
caller id role = record {
  claims = record {
    user_id = id;
    role = role;
    active = true;
    token_version = 3;
    expires_at = 900;
    issued_at = 0;
  };
  user = user id "c@x" role;
}

sessions_close-Closing_example : Closing 3 10 world (sessions_close (caller 3 "user") 10 world)
sessions_close-Closing_example = sessions_close-Closing (caller 3 "user") 10 world

abbrev uploads : UploadConfig
uploads = record { max_bytes = pos 100; allowed_mimes = "image/png" ∷ [] }

abbrev same : Char → Char
same c = c

abbrev sniff : Bytes → String
sniff file = "image/png"

abbrev decode : Bytes → Option (ℕ × ℕ)
decode file = some (4, 3)

images_upload-Upload_example :
    Upload same sniff decode uploads session
      (7 ∷ [])
      world
      (images_upload same sniff decode uploads (some session) (some (7 ∷ [])) world)
images_upload-Upload_example = images_upload-Upload same sniff decode uploads session (7 ∷ []) world

abbrev req : CreateQuestionRequest
req = record {
  question = "Is 7 prime?";
  type = "multiple_choice";
  choices = "yes" ∷ "no" ∷ [];
  answers = "yes" ∷ [];
  choice_labeling = "";
  explanation = "";
  tags = "maths" ∷ [];
  confidence = none;
}

abbrev hash : String → String
hash s = s

-- A service that is down
abbrev down : String → Io Vector
down text = throw (plain "timeout")

questions_create-Creating_example :
    Creating same hash
      (caller 1 "expert")
      req
      world
      (questions_create same hash (some down) (caller 1 "expert") (some req) world)
questions_create-Creating_example =
    questions_create-Creating same hash (some down) (caller 1 "expert") req world (λ text w. refl)

second_page : (parse_paging (some "2") (some "5")).offset ≡ pos 5
unfolding parse_paging
second_page = refl

-- A page beyond the numbers of an int64 wraps around to the first rows.
wrapped_page : (parse_paging (some "4611686018427387905") (some "20")).offset ≡ pos 0
unfolding parse_paging
wrapped_page = refl

sessions_list-IsPage_example :
    (1 ≤ (parse_paging (some "2") (some "5")).page)
    × (1 ≤ (parse_paging (some "2") (some "5")).per_page)
    × ((parse_paging (some "2") (some "5")).per_page ≤ 100)
    × Always
        (IsPage 3 world (parse_paging (some "2") (some "5")))
        (sessions_list (caller 3 "user") (some "2") (some "5") world)
unfolding parse_paging
sessions_list-IsPage_example =
    sessions_list-IsPage (caller 3 "user") (some "2") (some "5") world (omega arith) refl
