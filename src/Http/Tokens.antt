-- ===== src/Http/Tokens.antt =====
-- internal/auth/jwt.go. The library's parser is an argument: it asks for the key by whether the
-- token's method is HMAC, and answers with the token's validity and claims.
use coeus.Prelude.{ℕ, ◌+◌, String, Bool, true, false, Result, ok, err}
use coeus.Domain.Types.{Uuid, Instant}
use coeus.Domain.Errors.{GoError, plain, wrap}

pub record Claims : Type 0 where
  pub user_id : Uuid
  pub role : String
  pub active : Bool
  pub token_version : ℕ
  pub expires_at : Instant
  pub issued_at : Instant

pub record JwtManager : Type 0 where
  pub secret : String
  pub access_ttl : ℕ

abbrev pub ParseWithClaims : Type 0
ParseWithClaims = String → (Bool → Result GoError String) → Result GoError (Bool × Claims)

module _ (signed_string : Claims → String → Result GoError String) where
  -- `at` is what time.Now answers.
  unfoldable pub issue : JwtManager → Instant → Uuid → String → Bool → ℕ → Result GoError String
  issue mgr at user_id role active token_version =
      signed_string
        (record {
          user_id = user_id;
          role = role;
          active = active;
          token_version = token_version;
          expires_at = at + mgr.access_ttl;
          issued_at = at;
        })
        mgr.secret

abbrev key_func : JwtManager → Bool → Result GoError String
key_func mgr true = ok mgr.secret
key_func mgr false = err (plain "unexpected signing method")

abbrev checked : Result GoError (Bool × Claims) → Result GoError Claims
checked (err e) = err (wrap "verify token" e)
checked (ok (true, claims)) = ok claims
checked (ok (false, claims)) = err (plain "invalid token")

unfoldable pub verify : ParseWithClaims → JwtManager → String → Result GoError Claims
verify parse mgr token = checked (parse token (key_func mgr))
