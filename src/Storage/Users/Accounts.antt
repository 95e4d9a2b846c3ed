-- ===== src/Storage/Users/Accounts.antt =====
-- What Update of user_repo.go makes of a row, and the uniqueness of emails under it and Create.
use coeus.Prelude.{
  ◌+◌, ◌%◌, ◌^◌, ◌≡◌, ◌≢◌, refl, sym, ap, subst, Bool, true, false, not, some, List, [], ◌∷◌, arith,
  str_eq, eq_iff, find, update, if◌then◌else◌, ◌==◌, Bool-cases, inl, inr, OnRet, OnRet-weaken,
  Outcome, ret, raise,
}
use coeus.Domain.Types.{Uuid}
use coeus.Domain.Errors.{GoError}
use coeus.Storage.World.{Db, User, World, transaction, rollback}
use coeus.Storage.Users.{
  Spelling, UserUpdate, has_id, update_user, update_tx, role_changed, active_changed, bump,
  new_version, self_change, is_caller,
}
use coeus.Storage.Users.Committed.{Updated, written_by, update_tx-Updated}

pub find-update :
    (id : Uuid) (f : User → User) (us : List User) (cur : User)
    → ((u : User) → (f u).id ≡ u.id)
    → find (has_id id) us ≡ some cur
    → find (has_id id) (update (has_id id) f us) ≡ some (f cur)
find-update id f [] cur same e = absurd (ground arith)
find-update id f (u ∷ us) cur same e = elim (Bool-cases (u.id == id)) [
  | inl hit ↦
      let found : u ≡ cur = ground arith in
      let hit' : (f u).id == id ≡ true = rw (same u) hit in
      rw (hit, hit') (ap (λ v. some (f v)) found)
  | inr miss ↦ rw (miss, miss) (find-update id f us cur same (ground arith))
]

module _ {A : Type 0} where
  OnRet-rollback :
      (Q : A → World → Type 0) (db : Db) (o : Outcome GoError World A)
      → OnRet Q o
      → OnRet Q (rollback db o)
  OnRet-rollback Q db (ret a w) h = h
  OnRet-rollback Q db (raise e w) h = tt

-- The row that an update by a caller returns for the row that it found.
pub record Changed (id : Uuid) (upd : UserUpdate) (who : Spelling) (cur u : User) : Type 0 where
  pub email : u.email ≡ upd.email
  pub role : u.role ≡ upd.role
  pub active : u.active ≡ upd.active
  pub same_id : u.id ≡ cur.id
  pub same_hash : u.password_hash ≡ cur.password_hash
  pub revoked : (u.role ≢ cur.role) → u.token_version ≡ (cur.token_version + 1) % 2 ^ 64
  pub disabled : (u.active ≢ cur.active) → u.token_version ≡ (cur.token_version + 1) % 2 ^ 64
  pub kept : u.role ≡ cur.role → u.active ≡ cur.active → u.token_version ≡ cur.token_version
  pub own : who.id ≡ who.caller_id → (u.role ≡ cur.role) × (u.active ≡ cur.active)

same_flag : (a b : Bool) → (if a then b else not b) ≡ true → b ≡ a
same_flag true b h = h
same_flag false true h = absurd (ground arith)
same_flag false false h = refl

flag_same : (a b : Bool) → b ≡ a → (if a then b else not b) ≡ true
flag_same true b h = h
flag_same false b h = rw h refl

module _ (upd : UserUpdate) (cur : User) where
  role_same : role_changed cur upd ≡ false → upd.role ≡ cur.role
  role_same h = sym ((eq_iff cur.role upd.role).0 (ground arith))

  active_same : active_changed cur upd ≡ false → upd.active ≡ cur.active
  active_same h = same_flag cur.active upd.active (ground arith)

  version-role : upd.role ≢ cur.role → new_version cur upd ≡ bump cur.token_version
  unfolding new_version
  version-role h = elim (Bool-cases (role_changed cur upd)) [
    | inl e ↦ rw e refl
    | inr e ↦ absurd (h (role_same e))
  ]

  version-active : upd.active ≢ cur.active → new_version cur upd ≡ bump cur.token_version
  unfolding new_version
  version-active h = elim (Bool-cases (active_changed cur upd)) [
    | inl e ↦ ground (arith, e)
    | inr e ↦ absurd (h (active_same e))
  ]

  version-same :
      upd.role ≡ cur.role → upd.active ≡ cur.active → new_version cur upd ≡ cur.token_version
  unfolding new_version
  version-same h k =
      let r : str_eq cur.role upd.role ≡ true = (eq_iff cur.role upd.role).1 (sym h) in
      rw (r, flag_same cur.active upd.active k) refl

  own-allowed :
      (who : Spelling)
      → not (self_change who cur upd) ≡ true
      → who.id ≡ who.caller_id
      → (upd.role ≡ cur.role) × (upd.active ≡ cur.active)
  own-allowed who h e =
      let me : is_caller who ≡ true = (eq_iff who.id who.caller_id).1 e in
      (role_same (ground arith), active_same (ground arith))

Changed-Updated :
    (id : Uuid) (upd : UserUpdate) (who : Spelling) (before later : Db) (cur u : User)
    → find (has_id id) before.users ≡ some cur
    → Updated id upd who before u later
    → Changed id upd who cur u
Changed-Updated id upd who before later cur u e d =
    let f = written_by id upd d.cur in
    let found : d.cur ≡ cur = ground (arith, d.found) in
    let made : written_by id upd d.cur d.cur ≡ u =
      ground (arith, d.row, find-update id f before.users d.cur (λ _. refl) d.found) in
    let c : Changed id upd who d.cur (f d.cur) = record {
      email = refl;
      role = refl;
      active = refl;
      same_id = refl;
      same_hash = refl;
      revoked = version-role upd d.cur;
      disabled = version-active upd d.cur;
      kept = version-same upd d.cur;
      own = own-allowed upd d.cur who d.allowed;
    } in
    subst (Changed id upd who cur) made
      (subst (λ (x : User). Changed id upd who x (f d.cur)) found c)

-- An Update that succeeds returns the requested email, role and active flag on the row of the id,
-- with its password hash. The token version goes up by one, modulo 2^64, where the role or the flag
-- changed and stays otherwise, and neither changes where the text of the id is that of the caller's.
pub update_user-Changed :
    (id : Uuid) (upd : UserUpdate) (who : Spelling) (w : World) (cur : User)
    → find (has_id id) w.db.users ≡ some cur
    → OnRet (λ u _. Changed id upd who cur u) (update_user id upd who w)
unfolding update_user transaction
update_user-Changed id upd who w cur e =
    OnRet-rollback (λ u _. Changed id upd who cur u) w.db (update_tx id upd who w)
      (OnRet-weaken (λ u w'. Updated id upd who w.db u w'.db) (λ u _. Changed id upd who cur u) _
        (update_tx-Updated id upd who w) λ u w' d. Changed-Updated id upd who w.db w'.db cur u e d)
