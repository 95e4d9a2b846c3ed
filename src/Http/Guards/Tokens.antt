-- ===== src/Http/Guards/Tokens.antt =====
-- Whom AuthMiddleware of internal/httpapi/middleware.go lets pass, and for how long a token serves.
use coeus.Prelude.{
  ◌+◌, ◌^◌, ◌≡◌, ◌≢◌, refl, sym, ap, ◌∙◌, String, true, false, not, ◌&&◌, ◌||◌, some, Result, ok,
  find, any, arith, Outcome, ret, raise, OnRet, OnRet-weaken, ◌==◌, str_eq, eq_iff, apart-str_eq,
  Bool-cases, Option-cases, Result-cases, inl, inr, ◌⊎◌, has_prefix, drop_runes,
}
use coeus.Domain.Types.{Uuid}
use coeus.Domain.Errors.{GoError}
use coeus.Storage.World.{User, World, query}
use coeus.Storage.Users.{Spelling, UserUpdate, has_id, find_by_id, update_user}
use coeus.Storage.Users.Passwords.{rekey}
use coeus.Storage.Users.Accounts.{Changed, update_user-Changed, find-update}
use coeus.Http.Tokens.{Claims}
use coeus.Http.Guards.{Reply, Identity, unauthorized, token_valid, auth_middleware}

-- The token and the live row of a request that passes
pub record Admitted (verify : String → Result GoError Claims) (header : String) (w : World)
    (i : Identity) (w' : World) : Type 0 where
  pub bearer : has_prefix header "Bearer " ≡ true
  pub signed : verify (drop_runes header "Bearer ") ≡ ok i.claims
  pub live : find (has_id i.claims.user_id) w.db.users ≡ some i.user
  pub active : i.user.active ≡ true
  pub role : i.claims.role ≡ i.user.role
  pub version : i.claims.token_version ≡ i.user.token_version
  pub unchanged : w'.db ≡ w.db

pub data Admission (verify : String → Result GoError Claims) (header : String) (w : World)
    : Outcome Reply World Identity → Type 0 where
  admitted :
      (i : Identity) (w' : World)
      → Admitted verify header w i w'
      → Admission verify header w (ret i w')
  refused : (w' : World) → w'.db ≡ w.db → Admission verify header w (raise unauthorized w')

module _ (claims : Claims) (user : User) where
  valid-active : token_valid claims user ≡ true → user.active ≡ true
  unfolding token_valid
  valid-active h = ground arith

  valid-role : token_valid claims user ≡ true → claims.role ≡ user.role
  unfolding token_valid
  valid-role h = (eq_iff claims.role user.role).0 (ground arith)

  valid-version : token_valid claims user ≡ true → claims.token_version ≡ user.token_version
  unfolding token_valid
  valid-version h = ground arith

  stale-role : claims.role ≢ user.role → token_valid claims user ≡ false
  unfolding token_valid
  stale-role h = ground (arith, apart-str_eq claims.role user.role h)

  stale-version : claims.token_version ≢ user.token_version → token_valid claims user ≡ false
  unfolding token_valid
  stale-version h = ground arith

  inactive : user.active ≡ false → token_valid claims user ≡ false
  unfolding token_valid
  inactive h = ground arith

-- A request passes only with a bearer token that verifies and whose user is an active row with the
-- token's role and version, and changes nothing; the reply to every other request is 401.
pub auth_middleware-Admission :
    (verify : String → Result GoError Claims) (header : String) (w : World)
    → Admission verify header w (auth_middleware verify header w)
unfolding auth_middleware find_by_id query
auth_middleware-Admission verify header w =
    elim (Bool-cases (not (str_eq header "" || not (has_prefix header "Bearer ")))) [
      | inr bad ↦ rw bad (refused _ refl)
      | inl fine ↦ elim (Result-cases (verify (drop_runes header "Bearer "))) [
        | inr (e, unsigned) ↦ rw (fine, unsigned) (refused _ refl)
        | inl (claims, signed) ↦ elim (Option-cases (w.faults w.trips)) [
          | inr (x, down) ↦ rw (fine, signed, down) (refused _ refl)
          | inl up ↦ elim (Option-cases (find (has_id claims.user_id) w.db.users)) [
            | inl missing ↦ rw (fine, signed, up, missing) (refused _ refl)
            | inr (user, live) ↦ elim (Bool-cases (token_valid claims user)) [
              | inr stale ↦ rw (fine, signed, up, live, stale) (refused _ refl)
              | inl valid ↦
                  rw (fine, signed, up, live, valid)
                    (admitted _ _ (record {
                      bearer = ground arith;
                      signed = signed;
                      live = live;
                      active = valid-active claims user valid;
                      role = valid-role claims user valid;
                      version = valid-version claims user valid;
                      unchanged = refl;
                    }))
            ]
          ]
        ]
      ]
    ]

-- An Update that changes the role or the active flag of a user makes every token void that was
-- valid for the row before.
pub update_user-token_valid :
    (claims : Claims) (id : Uuid) (upd : UserUpdate) (who : Spelling) (w : World) (cur : User)
    → find (has_id id) w.db.users ≡ some cur
    → token_valid claims cur ≡ true
    → (upd.role ≢ cur.role) ⊎ (upd.active ≢ cur.active)
    → OnRet (λ u _. token_valid claims u ≡ false) (update_user id upd who w)
update_user-token_valid claims id upd who w cur found valid change =
    OnRet-weaken (λ u _. Changed id upd who cur u) (λ u _. token_valid claims u ≡ false)
      (update_user id upd who w) (update_user-Changed id upd who w cur found)
      λ u _ c. void u c change
  where
    void :
        (u : User)
        → Changed id upd who cur u
        → (upd.role ≢ cur.role) ⊎ (upd.active ≢ cur.active)
        → token_valid claims u ≡ false
    void u c (inl role) =
        stale-role claims u λ same. role (sym c.role ∙ (sym same ∙ valid-role claims cur valid))
    void u c (inr flag) = elim (Bool-cases u.active) [
      | inr off ↦ inactive claims u off
      | inl on ↦ absurd (flag (sym c.active ∙ (on ∙ sym (valid-active claims cur valid))))
    ]

-- A reset of a password makes every token void that was valid for the row before.
pub rekey-token_valid :
    (claims : Claims) (id : Uuid) (hash : String) (w : World) (cur u : User)
    → find (has_id id) w.db.users ≡ some cur
    → token_valid claims cur ≡ true
    → OnRet
        (λ _ w'. find (has_id id) w'.db.users ≡ some u → token_valid claims u ≡ false)
        (rekey id hash w)
unfolding rekey
rekey-token_valid claims id hash w cur u found valid =
    elim (Bool-cases (any (λ v. has_id id v && v.token_version + 1 == 2 ^ 63) w.db.users)) [
      | inl full ↦ rw full tt
      | inr room ↦ rw room λ e.
          let f : User → User =
            λ v. record v { password_hash = hash; token_version = v.token_version + 1 } in
          let written : f cur ≡ u =
            ground (arith, e, find-update id f w.db.users cur (λ _. refl) found) in
          let bumped : u.token_version ≡ cur.token_version + 1 =
            ap (λ (v : User). v.token_version) (sym written) in
          let old : claims.token_version ≡ cur.token_version = valid-version claims cur valid in
          stale-version claims u λ same. absurd (omega (arith, same, old, bumped))
    ]
