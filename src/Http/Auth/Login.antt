-- ===== src/Http/Auth/Login.antt =====
-- To whom Login of internal/httpapi/handlers/auth.go gives a token.
use coeus.Prelude.{
  ℕ, ◌+◌, ◌≡◌, refl, String, Bool, true, some, Result, ok, find, arith, str_eq, eq_iff, OnRet,
  Option-cases, Bool-cases, Result-cases, inl, inr,
}
use coeus.Domain.Errors.{GoError}
use coeus.Storage.World.{User, World, query}
use coeus.Storage.Users.{find_by_email}
use coeus.Http.Tokens.{Claims, JwtManager, issue}
use coeus.Http.Guards.{token_valid}
use coeus.Http.Auth.{Credentials, AuthResponse, login}

-- The claims for an active user
abbrev pub claims_of : JwtManager → ℕ → User → Claims
claims_of mgr at u = record {
  user_id = u.id;
  role = u.role;
  active = true;
  token_version = u.token_version;
  expires_at = at + mgr.access_ttl;
  issued_at = at;
}

module _ (signed_string : Claims → String → Result GoError String) (mgr : JwtManager)
    (verify_password : String → String → Bool) where
  -- A login that gives a token
  pub record LoggedIn (req : Credentials) (w : World) (r : AuthResponse) : Type 0 where
    pub user : User
    pub row : find (λ u. str_eq u.email req.email) w.db.users ≡ some user
    pub password : verify_password user.password_hash req.password ≡ true
    pub active : user.active ≡ true
    pub role : r.role ≡ user.role
    pub token : signed_string (claims_of mgr w.clock user) mgr.secret ≡ ok r.token
    pub valid : token_valid (claims_of mgr w.clock user) user ≡ true

  fresh : (at : ℕ) (u : User) → u.active ≡ true → token_valid (claims_of mgr at u) u ≡ true
  unfolding token_valid
  fresh at u on =
      let same : str_eq u.role u.role ≡ true = (eq_iff u.role u.role).1 refl in ground arith

  -- Login gives a token only to the active user with the email, for the password that fits its hash,
  -- and the token's claims are valid for the row as it is.
  pub login-LoggedIn :
      (req : Credentials) (w : World)
      → OnRet (λ r _. LoggedIn req w r) (login signed_string mgr verify_password (some req) w)
  unfolding login find_by_email query issue
  login-LoggedIn req w = elim (Option-cases (w.faults w.trips)) [
    | inr (e, down) ↦ rw down tt
    | inl up ↦ elim (Option-cases (find (λ u. str_eq u.email req.email) w.db.users)) [
      | inl missing ↦ rw (up, missing) tt
      | inr (u, row) ↦ elim (Bool-cases (verify_password u.password_hash req.password)) [
        | inr wrong ↦ rw (up, row, wrong) tt
        | inl fits ↦ elim (Bool-cases u.active) [
          | inr off ↦ rw (up, row, fits, off) tt
          | inl on ↦ elim (Result-cases (signed_string (claims_of mgr w.clock u) mgr.secret)) [
            | inr (e, unsigned) ↦ rw (up, row, fits, on, unsigned) tt
            | inl (t, signed) ↦
                rw (up, row, fits, on, signed)
                  (record {
                    user = u;
                    row = row;
                    password = fits;
                    active = on;
                    role = refl;
                    token = signed;
                    valid = fresh w.clock u on;
                  })
          ]
        ]
      ]
    ]
  ]
