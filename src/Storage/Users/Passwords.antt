-- ===== src/Storage/Users/Passwords.antt =====
-- ResetPassword of internal/storage/postgres/user_repo.go.
use coeus.Prelude.{◌+◌, ◌^◌, String, not, ◌&&◌, ◌==◌, any, update, ◌>>=◌, ◌>>◌, map_err, guard}
use coeus.Domain.Types.{Uuid}
use coeus.Domain.Errors.{pg, wrap}
use coeus.Storage.World.{Io, pure, query, reading, writing}
use coeus.Storage.Users.{has_id, with_users, find_by_id}

-- SET password_hash = $1, token_version = token_version + 1; a bigint out of range is an error.
unfoldable pub rekey : Uuid → String → Io Unit
rekey id hash = do
  full ← reading (λ db. any (λ u. has_id id u && u.token_version + 1 == 2 ^ 63) db.users)
  guard (not full) (pg "22003" "bigint out of range")
  writing (
      with_users (
        update (has_id id)
          (λ u. record u { password_hash = hash; token_version = u.token_version + 1 })))

-- `generate` and `hash` are auth.GeneratePassword and auth.HashPassword.
unfoldable pub reset_password : Io String → (String → Io String) → Uuid → Io String
unfolding find_by_id rekey
reset_password generate hash id = do
  find_by_id id
  plaintext ← map_err (wrap "reset password generate") generate
  hashed ← map_err (wrap "reset password hash") (hash plaintext)
  map_err (wrap "reset password exec") (query (rekey id hashed))
  pure plaintext
