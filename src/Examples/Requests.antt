-- ===== src/Examples/Requests.antt =====
-- Guards of requests, tokens and passwords.
use coeus.Prelude.{Bool, ◌≡◌, ◌⊎◌, refl, String, true, false, some, Result, ok, find, OnRet}
use coeus.Domain.Errors.{GoError}
use coeus.Storage.World.{User}
use coeus.Storage.Users.{UserUpdate, has_id, update_user}
use coeus.Storage.Users.Passwords.{rekey}
use coeus.Http.Tokens.{Claims}
use coeus.Http.Guards.{token_valid, auth_middleware, session_window}
use coeus.Http.Guards.Tokens.{Admission, auth_middleware-Admission}
use coeus.Http.Guards.Void.{SameRights, tokens_void}
use coeus.Http.Guards.Window.{Verdict, session_window-Verdict}
use coeus.Http.Auth.{login}
use coeus.Http.Auth.Login.{LoggedIn, login-LoggedIn}
use coeus.Http.Tokens.{JwtManager}
use coeus.Http.Auth.{Credentials}
use coeus.Examples.Data.{by_other, user, world}

abbrev claims : Claims
claims = record {
  user_id = 1;
  role = "admin";
  active = true;
  token_version = 3;
  expires_at = 900;
  issued_at = 0;
}

abbrev accepts : String → Result GoError Claims
accepts token = ok claims

abbrev demotion : UserUpdate
demotion = record { email = "a@x"; role = "user"; active = true }

claims_fit : token_valid claims (user 1 "a@x" "admin") ≡ true
unfolding token_valid
claims_fit = refl

auth_middleware-Admission_example :
    Admission accepts "Bearer t" world (auth_middleware accepts "Bearer t" world)
auth_middleware-Admission_example = auth_middleware-Admission accepts "Bearer t" world

abbrev rekeyed : User
rekeyed = record {
  id = 1;
  email = "a@x";
  password_hash = "new";
  role = "admin";
  active = true;
  token_version = 4;
  created_at = 0;
}

tokens_void_example :
    OnRet
      (λ v _. (token_valid claims v ≡ false) ⊎ SameRights (user 1 "a@x" "admin") v)
      (update_user 1 demotion by_other world)
    × OnRet
        (λ _ w'. find (has_id 1) w'.db.users ≡ some rekeyed → token_valid claims rekeyed ≡ false)
        (rekey 1 "new" world)
tokens_void_example =
    tokens_void claims 1 demotion by_other "new" world (user 1 "a@x" "admin") rekeyed refl
      claims_fit

session_window-Verdict_example : Verdict 3 10 world (session_window 3 10 world)
session_window-Verdict_example = session_window-Verdict 3 10 world

abbrev manager : JwtManager
manager = record { secret = "s"; access_ttl = 900 }

abbrev signs : Claims → String → Result GoError String
signs c secret = ok "t"

abbrev fits : String → String → Bool
fits hash password = true

abbrev credentials : Credentials
credentials = record { email = "a@x"; password = "p" }

login-LoggedIn_example :
    OnRet
      (λ r _. LoggedIn signs manager fits credentials world r)
      (login signs manager fits (some credentials) world)
login-LoggedIn_example = login-LoggedIn signs manager fits credentials world
