-- ===== src/Examples/Accounts.antt =====
-- Users and their admins.
use coeus.Prelude.{◌≡◌, Always, ◌<◌, refl, true, arith, final, OnRet}
use coeus.Storage.World.{query}
use coeus.Storage.Users.{Spelling, active_admin, UserUpdate, update_user}
use coeus.Storage.Users.Admins.{UniqueIds, admins, admins-update_user}
use coeus.Storage.Users.Accounts.{Changed, update_user-Changed}
use coeus.Examples.Data.{by_other, user, users, world}

abbrev demotion : UserUpdate
demotion = record { email = "a@x"; role = "user"; active = true }

pub users-UniqueIds : UniqueIds users
users-UniqueIds = ((ground arith, (ground arith, tt)), ((ground arith, tt), (tt, tt)))

pub two_admins : 0 < admins world.db
unfolding active_admin
two_admins = ground arith

admins-update_user_example : 0 < admins (final (update_user 1 demotion by_other world)).db
admins-update_user_example = admins-update_user 1 demotion by_other world users-UniqueIds two_admins

update_user-Changed_example :
    OnRet
      (λ u _. Changed 1 demotion by_other (user 1 "a@x" "admin") u)
      (update_user 1 demotion by_other world)
update_user-Changed_example =
    update_user-Changed 1 demotion by_other world (user 1 "a@x" "admin") refl

-- The caller's own id, spelled with a capital in the path
abbrev by_self : Spelling
by_self = record { id = "A1"; caller_id = "a1" }

-- The test of the caller's own id lets it pass, and the caller is no admin any more.
self_demoted : Always (λ u _. u.role ≡ "user") (update_user 1 demotion by_self world)
unfolding update_user query active_admin
self_demoted = refl
