-- ===== src/Api/Lockout.antt =====
-- The active admins under the requests of internal/httpapi/server.go.
pub mod Requests
use coeus.Prelude.{
  ℕ, ◌<◌, ◌≤◌, ◌+◌, ◌≡◌, refl, sym, ap, subst, String, Bool, true, false, Option, none, some,
  Result, ok, err, List, [], ◌∷◌, ◌++◌, ◌>>=◌, ◌>>◌, after, map_err, map_error, arith, count,
  update, final, Outcome, ret, raise, Bool-cases, inl, inr, Exec,
}
use coeus.Domain.Types.{Uuid, Vector}
use coeus.Domain.Errors.{GoError, wrap}
use coeus.Dto.Responses.{UpdateUserRequest, UserResponse}
use coeus.Storage.World.{Db, User, World, Io, writing}
use coeus.Storage.Keeps.{Keeps, keeps_rules, Keeps-then, Keeps-bind, Keeps-writing, Keeps-map_err}
use coeus.Storage.UsersKept.{UsersAre, Keeps-find_by_id, Keeps-find_by_email}
use coeus.Storage.Users.{
  UserUpdate, has_id, active_admin, with_users, create, insert_user, update_user, find_by_id,
  find_by_email,
}
use coeus.Storage.Users.Admins.{UniqueIds, admins, admins-update_user, admins-delete_user}
use coeus.Storage.Users.Deletion.{delete_user}
use coeus.Storage.Users.Passwords.{rekey, reset_password}
use coeus.Http.Auth.{
  Credentials, AuthResponse, AccountResponse, register, login, refresh, answer, token_of, unbound,
}
use coeus.Http.Tokens.{Claims, JwtManager, issue}
use coeus.Http.Guards.{Reply, Identity}
use coeus.Handlers.Responses.{Sent, Handler, sends, binds_user, by_status}
use coeus.Handlers.Users.{
  PathId, spelling, user_to_response, users_update, users_delete, users_reset_password,
}
use coeus.Api.UsersKept.{handler_rules, Keeps-refuse, Keeps-sends}

abbrev pub SomeAdmin : Db → Type 0
SomeAdmin db = 0 < admins db

module _ {E A : Type 0} where
  -- What leaves the users as they are leaves an admin.
  pub kept-SomeAdmin :
      (m : Exec E World A) → ((us : List User) → Keeps (UsersAre us) m) → Keeps SomeAdmin m
  kept-SomeAdmin m k = record {
    at = λ w h. subst (λ us. 0 < count active_admin us) (sym ((k w.db.users).at w refl)) h;
  }

admins-append :
    (us : List User) (u : User) → count active_admin us ≤ count active_admin (us ++ u ∷ [])
admins-append [] u = omega arith
admins-append (v ∷ us) u = ground (arith, admins-append us u)

appended : (u : User) → Keeps SomeAdmin (writing (with_users (λ us. us ++ u ∷ [])))
appended u = record { at = λ w h. ground (arith, admins-append w.db.users u) }

admins-same :
    (p : User → Bool) (f : User → User)
    → ((u : User) → active_admin (f u) ≡ active_admin u)
    → (us : List User) → count active_admin (update p f us) ≡ count active_admin us
admins-same p f same [] = refl
admins-same p f same (u ∷ us) = ground (arith, same u, admins-same p f same us)

rekeyed :
    (id : Uuid) (hash : String)
    → Keeps SomeAdmin (
        writing (
          with_users (
            update
              (has_id id)
              (λ u. record u { password_hash = hash; token_version = u.token_version + 1 }))))
unfolding active_admin
rekeyed id hash = record {
  at = λ w h.
      let f : User → User =
        λ u. record u { password_hash = hash; token_version = u.token_version + 1 } in
      ground (arith, admins-same (has_id id) f (λ u. refl) w.db.users);
}

pub create-SomeAdmin : (email hash role : String) → Keeps SomeAdmin (create email hash role)
unfolding create insert_user
create-SomeAdmin email hash role = search (keeps_rules, appended) depth 14

rekey-SomeAdmin : (id : Uuid) (hash : String) → Keeps SomeAdmin (rekey id hash)
unfolding rekey
rekey-SomeAdmin id hash = search (keeps_rules, rekeyed) depth 9

reset_password-SomeAdmin :
    (generate : Io String) (hash : String → Io String) (id : Uuid)
    → Keeps SomeAdmin generate
    → ((p : String) → Keeps SomeAdmin (hash p))
    → Keeps SomeAdmin (reset_password generate hash id)
unfolding reset_password
reset_password-SomeAdmin generate hash id g k = Keeps-then (find_by_id id) _ (found id) (
    Keeps-bind (map_err (wrap "reset password generate") generate) _
      (Keeps-map_err (wrap "reset password generate") generate g)
      (λ p.
        Keeps-bind (map_err (wrap "reset password hash") (hash p)) _
          (Keeps-map_err (wrap "reset password hash") (hash p) (k p))
          (λ hashed. search (keeps_rules, rekey-SomeAdmin) depth 9)))
  where
    found : (id : Uuid) → Keeps SomeAdmin (find_by_id id)
    found id = kept-SomeAdmin (find_by_id id) (λ us. Keeps-find_by_id us id)

pub users_reset_password-SomeAdmin :
    (generate : Io String) (hash : String → Io String) (id : Uuid)
    → Keeps SomeAdmin generate
    → ((p : String) → Keeps SomeAdmin (hash p))
    → Keeps SomeAdmin (users_reset_password generate hash id)
unfolding users_reset_password
users_reset_password-SomeAdmin generate hash id g k =
    Keeps-bind (map_err by_status (reset_password generate hash id)) (sends 200)
      (Keeps-map_err by_status (reset_password generate hash id)
        (reset_password-SomeAdmin generate hash id g k))
      (λ p. Keeps-sends 200 p)

answer-Keeps : {A : Type 0} (r : Result GoError A) → Keeps SomeAdmin (answer r)
answer-Keeps (ok a) = record { at = λ w h. h }
answer-Keeps (err e) = record { at = λ w h. h }

pub register-SomeAdmin :
    (hash_password : String → Result GoError String) (body : Option Credentials)
    → Keeps SomeAdmin (register hash_password body)
unfolding register
register-SomeAdmin hash_password none = record { at = λ w h. h }
register-SomeAdmin hash_password (some req) =
    search (handler_rules, create-SomeAdmin, answer-Keeps) depth 12

module _ (signed : Claims → String → Result GoError String) (mgr : JwtManager) where
  token_of-Keeps : (u : User) → Keeps SomeAdmin (token_of signed mgr u)
  token_of-Keeps u = search (handler_rules, answer-Keeps) depth 12

  pub login-SomeAdmin :
      (fits : String → String → Bool) (body : Option Credentials)
      → Keeps SomeAdmin (login signed mgr fits body)
  unfolding login
  login-SomeAdmin fits none = record { at = λ w h. h }
  login-SomeAdmin fits (some req) = search (handler_rules, found, token_of-Keeps) depth 12
    where
      found : (email : String) → Keeps SomeAdmin (find_by_email email)
      found email = kept-SomeAdmin (find_by_email email) (λ us. Keeps-find_by_email us email)

  pub refresh-SomeAdmin : (i : Identity) → Keeps SomeAdmin (refresh signed mgr i)
  unfolding refresh
  refresh-SomeAdmin i = token_of-Keeps i.user

ends_as :
    {A B : Type 0} (g : GoError → Reply) (o : Outcome GoError World A) (status : ℕ) (f : A → B)
    → SomeAdmin (final o).db
    → SomeAdmin (final (after (map_error g o) (λ a. sends status (f a)))).db
ends_as g (ret a w) status f h = h
ends_as g (raise e w) status f h = h

pub update-SomeAdmin :
    (is_email : String → Bool) (show_uuid : Uuid → String) (i : Identity) (id : PathId)
    (body : Option UpdateUserRequest) (w : World)
    → UniqueIds w.db.users
    → SomeAdmin w.db
    → SomeAdmin (final (users_update is_email show_uuid i id body w)).db
unfolding users_update
update-SomeAdmin is_email show_uuid i id none w unique h = h
update-SomeAdmin is_email show_uuid i id (some req) w unique h =
    elim (Bool-cases (binds_user is_email req)) [
      | inr bad ↦ rw bad h
      | inl fine ↦
          let upd : UserUpdate = record {
            email = req.email;
            role = req.role;
            active = req.active;
          } in
          rw fine (
            ends_as by_status (update_user id.value upd (spelling show_uuid i id) w) 200
              user_to_response
              (admins-update_user id.value upd (spelling show_uuid i id) w unique h))
    ]

pub delete-SomeAdmin :
    (show_uuid : Uuid → String) (i : Identity) (id : PathId) (w : World)
    → UniqueIds w.db.users
    → SomeAdmin w.db
    → SomeAdmin (final (users_delete show_uuid i id w)).db
unfolding users_delete
delete-SomeAdmin show_uuid i id w unique h =
    ends_as by_status (delete_user id.value (spelling show_uuid i id) w) 204 (λ _. tt)
      (admins-delete_user id.value (spelling show_uuid i id) w unique h)
