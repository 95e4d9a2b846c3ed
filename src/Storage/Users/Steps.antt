-- ===== src/Storage/Users/Steps.antt =====
-- What the round trips of Update and Delete of user_repo.go say before the write.
use coeus.Prelude.{
  ℕ, ◌<◌, String, ◌≡◌, Bool, true, false, some, not, ◌&&◌, ◌==◌, str_eq, any, find, count, update,
  arith, OnRet, map_err,
}
use coeus.Domain.Types.{Uuid}
use coeus.Domain.Errors.{GoError}
use coeus.Storage.World.{Db, User, World, query}
use coeus.Storage.Reads.{Reads, Reads-map_err, Reads-query}
use coeus.Storage.Users.{
  UserUpdate, has_id, active_admin, set_user, find_row, last_admin_guard, email_guard, update_row,
}

abbrev Found : Uuid → User → Db → Type 0
Found id cur db = find (has_id id) db.users ≡ some cur

find_row-Reads : (id : Uuid) → Reads (Found id) (find_row (has_id id))
find_row-Reads id = record { at = λ w. ground arith }

pub find-Reads :
    (g : GoError → GoError) (id : Uuid)
    → Reads (Found id) (map_err g (query (find_row (has_id id))))
find-Reads g id =
    Reads-map_err (Found id) g _ (Reads-query (Found id) (find_row (has_id id)) (find_row-Reads id))

pub last_admin-Reads :
    (context : String) (losing : Bool)
    → Reads
        (λ _ db. losing ≡ true → 1 < count active_admin db.users)
        (last_admin_guard context losing)
unfolding last_admin_guard query
last_admin-Reads context losing = record { at = λ w. ground arith }

pub email-Reads :
    (id : Uuid) (email : String) (changed : Bool)
    → Reads
        (λ _ db.
          changed ≡ true → any (λ u. str_eq u.email email && not (u.id == id)) db.users ≡ false)
        (email_guard id email changed)
unfolding email_guard query
email-Reads id email changed = record { at = λ w. ground arith }

pub row_written :
    (id : Uuid) (upd : UserUpdate) (v : ℕ) (w : World) (db : Db)
    → w.db ≡ db
    → OnRet
        (λ u w'.
          (w'.db.users ≡ update (has_id id) (set_user upd v) db.users)
          × (any (λ u. str_eq u.email upd.email && not (u.id == id)) db.users ≡ false)
          × (find (has_id id) (update (has_id id) (set_user upd v) db.users) ≡ some u))
        (query (update_row id upd v) w)
unfolding update_row query
row_written id upd v w db e = rw (← e) (ground arith)
