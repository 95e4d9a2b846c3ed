-- ===== src/Http/Guards/Void.antt =====
-- Which writes of internal/storage/postgres/user_repo.go make the tokens of a user void, by the
-- comparison of internal/httpapi/middleware.go.
use coeus.Prelude.{
  ◌≡◌, ◌≢◌, refl, ◌∙◌, String, Bool, true, false, some, find, OnRet, OnRet-weaken, str_eq, eq_iff,
  str_eq-apart, Bool-cases, inl, inr, ◌⊎◌,
}
use coeus.Domain.Types.{Uuid}
use coeus.Storage.World.{User, World}
use coeus.Storage.Users.{Spelling, UserUpdate, has_id, update_user}
use coeus.Storage.Users.Passwords.{rekey}
use coeus.Storage.Users.Accounts.{Changed, update_user-Changed}
use coeus.Http.Tokens.{Claims}
use coeus.Http.Guards.{token_valid}
use coeus.Http.Guards.Tokens.{update_user-token_valid, rekey-token_valid}

flags : (a b : Bool) → (a ≡ b) ⊎ (a ≢ b)
flags true true = inl refl
flags true false = inr cc
flags false true = inr cc
flags false false = inl refl

-- The row keeps what a token vouches for.
abbrev pub SameRights : User → User → Type 0
SameRights cur v = (v.role ≡ cur.role) × (v.active ≡ cur.active)

void_or_same :
    (claims : Claims) (id : Uuid) (upd : UserUpdate) (who : Spelling) (w : World) (cur : User)
    → find (has_id id) w.db.users ≡ some cur
    → token_valid claims cur ≡ true
    → OnRet (λ v _. (token_valid claims v ≡ false) ⊎ SameRights cur v) (update_user id upd who w)
void_or_same claims id upd who w cur found valid = elim (Bool-cases (str_eq upd.role cur.role)) [
  | inr role ↦ void_when (inl (str_eq-apart upd.role cur.role role))
  | inl role ↦ elim (flags upd.active cur.active) [
    | inr active ↦ void_when (inr active)
    | inl active ↦
        OnRet-weaken (λ v _. Changed id upd who cur v) _ (update_user id upd who w)
          (update_user-Changed id upd who w cur found)
          λ v _ c. inr (c.role ∙ (eq_iff upd.role cur.role).0 role, c.active ∙ active)
  ]
]
  where
    void_when :
        (upd.role ≢ cur.role) ⊎ (upd.active ≢ cur.active)
        → OnRet
            (λ v _. (token_valid claims v ≡ false) ⊎ SameRights cur v)
            (update_user id upd who w)
    void_when change =
        OnRet-weaken (λ v _. token_valid claims v ≡ false) _ (update_user id upd who w)
          (update_user-token_valid claims id upd who w cur found valid change) (λ v _ h. inl h)

-- A token that was valid for a user is void after an Update that succeeds, unless the row has kept
-- its role and its active flag, and after the write of a reset password.
pub tokens_void :
    (claims : Claims) (id : Uuid) (upd : UserUpdate) (who : Spelling) (hash : String) (w : World)
    (cur u : User)
    → find (has_id id) w.db.users ≡ some cur
    → token_valid claims cur ≡ true
    → OnRet (λ v _. (token_valid claims v ≡ false) ⊎ SameRights cur v) (update_user id upd who w)
      × OnRet
          (λ _ w'. find (has_id id) w'.db.users ≡ some u → token_valid claims u ≡ false)
          (rekey id hash w)
tokens_void claims id upd who hash w cur u found valid = (
  void_or_same claims id upd who w cur found valid,
  rekey-token_valid claims id hash w cur u found valid,
)
