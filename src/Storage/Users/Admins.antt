-- ===== src/Storage/Users/Admins.antt =====
-- The guard of the last active admin in Update and Delete of user_repo.go.
use coeus.Prelude.{
  ℕ, ◌+◌, ◌<◌, ◌≤◌, ◌≡◌, ◌≢◌, refl, true, false, not, some, List, [], ◌∷◌, arith, OnRet-weaken, All,
  count, find, select, update, final, ==_iff, Option-cases, Bool-cases, subst, inl, inr, ◌==◌,
}
use coeus.Domain.Types.{Uuid}
use coeus.Storage.World.{Db, User, World, query}
use coeus.Storage.Reads.{final-transaction}
use coeus.Storage.Users.Committed.{Updated, written_by, update_tx-Updated}
use coeus.Storage.Users.{Spelling, UserUpdate, has_id, active_admin, update_user, update_tx}
use coeus.Storage.Users.Deletion.{delete_user}

-- users.id is a primary key
abbrev pub UniqueIds : List User → Type 0
UniqueIds [] = Unit
UniqueIds (u ∷ us) = All (λ v. v.id ≢ u.id) us × UniqueIds us

abbrev pub admins : Db → ℕ
admins db = count active_admin db.users

-- The row of an id is not among the rows behind it.
pub rest_lacks :
    (u : User) (id : Uuid) (us : List User)
    → (u.id == id) ≡ true
    → All (λ v. v.id ≢ u.id) us
    → All (λ v. v.id ≢ id) us
rest_lacks u id us e h = subst (λ i. All (λ v. v.id ≢ i) us) ((==_iff _ _).0 e) h

module _ (id : Uuid) where
  pub update_absent :
      (f : User → User) (us : List User) → All (λ v. v.id ≢ id) us → update (has_id id) f us ≡ us
  update_absent f [] _ = refl
  update_absent f (u ∷ us) (h, hs) = ground (arith, update_absent f us hs)

  select_absent :
      (us : List User) → All (λ v. v.id ≢ id) us → select (λ u. not (has_id id u)) us ≡ us
  select_absent [] _ = refl
  select_absent (u ∷ us) (h, hs) = ground (arith, select_absent us hs)

  -- An update of one row takes away one admin at most.
  admins-update :
      (f : User → User) (us : List User)
      → UniqueIds us
      → count active_admin us ≤ count active_admin (update (has_id id) f us) + 1
  admins-update f [] _ = omega arith
  admins-update f (u ∷ us) (h, hs) = elim (Bool-cases (u.id == id)) [
    | inl e ↦ ground (arith, update_absent f us (rest_lacks u id us e h))
    | inr e ↦ ground (arith, admins-update f us hs)
  ]

  -- It takes none where the row was no active admin, or stays one.
  admins-update_row :
      (f : User → User) (us : List User) (cur : User)
      → find (has_id id) us ≡ some cur
      → (active_admin cur ≡ true → active_admin (f cur) ≡ true)
      → UniqueIds us
      → count active_admin us ≤ count active_admin (update (has_id id) f us)
  admins-update_row f [] cur e k _ = omega arith
  admins-update_row f (u ∷ us) cur e k (h, hs) = elim (Bool-cases (u.id == id)) [
    | inl same ↦
        let found : u ≡ cur = ground arith in
        let k' : active_admin u ≡ true → active_admin (f u) ≡ true = rw found k in
        ground (arith, k', update_absent f us (rest_lacks u id us same h))
    | inr other ↦ ground (arith, admins-update_row f us cur (ground arith) k hs)
  ]

  admins-select :
      (us : List User)
      → UniqueIds us
      → count active_admin us ≤ count active_admin (select (λ u. not (has_id id u)) us) + 1
  admins-select [] _ = omega arith
  admins-select (u ∷ us) (h, hs) = elim (Bool-cases (u.id == id)) [
    | inl e ↦ ground (arith, select_absent us (rest_lacks u id us e h))
    | inr e ↦ ground (arith, admins-select us hs)
  ]

  admins-select_row :
      (us : List User) (cur : User)
      → find (has_id id) us ≡ some cur
      → active_admin cur ≡ false
      → UniqueIds us
      → count active_admin us ≤ count active_admin (select (λ u. not (has_id id u)) us)
  admins-select_row [] cur e k _ = omega arith
  admins-select_row (u ∷ us) cur e k (h, hs) = elim (Bool-cases (u.id == id)) [
    | inl same ↦
        let found : u ≡ cur = ground arith in
        let k' : active_admin u ≡ false = rw found k in
        ground (arith, k', select_absent us (rest_lacks u id us same h))
    | inr other ↦ ground (arith, admins-select_row us cur (ground arith) k hs)
  ]

abbrev SomeAdmin : Db → Type 0
SomeAdmin db = 0 < admins db

-- An Update by anyone, whether it succeeds, is refused or meets a failing database, leaves an
-- active admin if there was one.
pub admins-update_user :
    (id : Uuid) (upd : UserUpdate) (who : Spelling) (w : World)
    → UniqueIds w.db.users
    → 0 < admins w.db
    → 0 < admins (final (update_user id upd who w)).db
unfolding update_user
admins-update_user id upd who w unique some_admin =
    final-transaction SomeAdmin (update_tx id upd who) w some_admin (
      OnRet-weaken (λ u w'. Updated id upd who w.db u w'.db) (λ _ w'. SomeAdmin w'.db) _
        (update_tx-Updated id upd who w)
        λ u w' d.
          let f = written_by id upd d.cur in
          ground (
            arith,
            d.written,
            d.spare,
            admins-update id f w.db.users unique,
            admins-update_row id f w.db.users d.cur d.found,
          ))

-- A Delete by anyone does so too.
pub admins-delete_user :
    (id : Uuid) (who : Spelling) (w : World)
    → UniqueIds w.db.users
    → 0 < admins w.db
    → 0 < admins (final (delete_user id who w)).db
unfolding delete_user query
admins-delete_user id who w unique some_admin = elim (Option-cases (find (has_id id) w.db.users)) [
  | inl missing ↦ ground arith
  | inr (cur, found) ↦
      ground (arith, admins-select id w.db.users unique, admins-select_row id w.db.users cur found)
]
