-- ===== src/Storage/Users/Committed.antt =====
-- What the transaction of Update in user_repo.go has established when it commits.
use coeus.Prelude.{
  ◌<◌, String, ◌≡◌, refl, Bool, true, false, some, not, ◌&&◌, ◌==◌, str_eq, any, find, count,
  update, OnRet, OnRet-after, OnRet-map_error, map_err, ap, ◌∙◌,
}
use coeus.Domain.Types.{Uuid}
use coeus.Storage.World.{Db, User, World, begin}
use coeus.Storage.Reads.{Reads-begin, Reads-map_err, Reads-guard, OnRet-read, OnRet-commit}
use coeus.Storage.Users.{
  Spelling, UserUpdate, has_id, active_admin, set_user, update_tx, new_version, self_change, losing,
  email_changed,
}
use coeus.Storage.Users.Steps.{find-Reads, last_admin-Reads, email-Reads, row_written}

abbrev pub written_by : Uuid → UserUpdate → User → User → User
written_by id upd cur = set_user upd (new_version cur upd)

abbrev pub taken : Uuid → String → Db → Bool
taken id email db = any (λ u. str_eq u.email email && not (u.id == id)) db.users

pub record Updated (id : Uuid) (upd : UserUpdate) (who : Spelling) (before : Db) (u : User)
    (later : Db) : Type 0 where
  pub cur : User
  pub found : find (has_id id) before.users ≡ some cur
  pub allowed : not (self_change who cur upd) ≡ true
  pub spare : losing cur upd ≡ true → 1 < count active_admin before.users
  pub free : taken id upd.email before ≡ false
  pub written : later.users ≡ update (has_id id) (written_by id upd cur) before.users
  pub row : find (has_id id) (update (has_id id) (written_by id upd cur) before.users) ≡ some u

module _ (id : Uuid) (upd : UserUpdate) (who : Spelling) (w : World) where
  abbrev Done : User → World → Type 0
  Done u w' = Updated id upd who w.db u w'.db

  abbrev Row : User → User → World → Type 0
  Row cur u w' =
      (w'.db.users ≡ update (has_id id) (written_by id upd cur) w.db.users)
      × (taken id upd.email w.db ≡ false)
      × (find (has_id id) (update (has_id id) (written_by id upd cur) w.db.users) ≡ some u)

  pub update_tx-Updated : OnRet Done (update_tx id upd who w)
  unfolding update_tx
  update_tx-Updated =
      OnRet-read Done w.db (map_err _ begin) _ w refl (Reads-map_err _ _ begin Reads-begin)
        λ _ w1 e1 _. OnRet-read Done w.db _ _ w1 e1 (find-Reads _ id) λ cur w2 e2 found.
          OnRet-read Done w.db _ _ w2 e2 (Reads-guard (not (self_change who cur upd)) _)
            λ _ w3 e3 allowed.
              OnRet-read Done w.db _ _ w3 e3 (last_admin-Reads "update user" (losing cur upd))
                λ _ w4 e4 spare.
                  OnRet-read Done w.db _ _ w4 e4 (email-Reads id upd.email (email_changed cur upd))
                    λ _ w5 e5 _.
                      OnRet-after (Row cur) Done _ _
                        (OnRet-map_error (Row cur) _ _
                          (row_written id upd (new_version cur upd) w5 w.db e5))
                        λ u w6 (written, free, row). OnRet-commit Done _ u w6 λ w7 e7. record {
                          cur = cur;
                          found = found;
                          allowed = allowed;
                          spare = spare;
                          free = free;
                          written = ap (λ (d : Db). d.users) e7 ∙ written;
                          row = row;
                        }
