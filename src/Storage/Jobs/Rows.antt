-- ===== src/Storage/Jobs/Rows.antt =====
-- The rows of the jobs table: their ids, and the one that Claim of
-- internal/storage/postgres/job_queue.go finds.
use coeus.Prelude.{
  ℕ, zero, suc, ◌≤◌, ◌≡◌, ◌≢◌, refl, sym, ap, subst, ◌∙◌, Bool, true, false, none, some, List, [],
  ◌∷◌, arith, Bool-cases, Option-cases, inl, inr, All, count, update, get_elem?, leb,
}
use coeus.Domain.Types.{Uuid, Job}
use coeus.Storage.Jobs.{in_status, oldest}

-- jobs.id is a primary key.
abbrev pub UniqueJobs : List Job → Type 0
UniqueJobs [] = Unit
UniqueJobs (j ∷ js) = All (λ k. k.id ≢ j.id) js × UniqueJobs js

module _ (p : Job → Bool) (f : Job → Job) (same : (j : Job) → (f j).id ≡ j.id) where
  absent-update :
      (id : Uuid) (js : List Job) → All (λ k. k.id ≢ id) js → All (λ k. k.id ≢ id) (update p f js)
  absent-update id [] _ = tt
  absent-update id (j ∷ js) (h, hs) = (ground (arith, same j), absent-update id js hs)

  pub unique-update : (js : List Job) → UniqueJobs js → UniqueJobs (update p f js)
  unique-update [] _ = tt
  unique-update (j ∷ js) (h, hs) = elim (Bool-cases (p j)) [
    | inl e ↦ rw (e, same j) (absent-update j.id js h, unique-update js hs)
    | inr e ↦ rw e (absent-update j.id js h, unique-update js hs)
  ]

  pub get_elem?-update :
      (i : ℕ) (js : List Job) (j : Job)
      → get_elem? js i ≡ some j
      → p j ≡ false
      → get_elem? (update p f js) i ≡ some j
  get_elem?-update i [] j e idle = e
  get_elem?-update zero (k ∷ js) j e idle = let found : k ≡ j = ground arith in ground arith
  get_elem?-update (suc i) (k ∷ js) j e idle = get_elem?-update i js j e idle

-- What the SELECT of Claim finds: a pending row, and none was queued earlier.
pub record Oldest (js : List Job) (k : Job) : Type 0 where
  pub place : ℕ
  pub found : get_elem? js place ≡ some k
  pub pending : in_status "pending" k ≡ true
  pub first : All (λ x. in_status "pending" x ≡ true → k.queued_at ≤ x.queued_at) js

pub oldest-none : (js : List Job) → oldest js ≡ none → count (in_status "pending") js ≡ 0
unfolding oldest
oldest-none [] e = refl
oldest-none (j ∷ js) e = elim (Bool-cases (in_status "pending" j)) [
  | inl p ↦ absurd (ground arith)
  | inr q ↦ rw q (oldest-none js (ground arith))
]

weaken_first :
    (a b : ℕ) (js : List Job)
    → b ≤ a
    → All (λ x. in_status "pending" x ≡ true → a ≤ x.queued_at) js
    → All (λ x. in_status "pending" x ≡ true → b ≤ x.queued_at) js
weaken_first a b [] le _ = tt
weaken_first a b (j ∷ js) le (h, hs) = (λ p. omega (arith, h p), weaken_first a b js le hs)

none_first :
    (a : ℕ) (js : List Job)
    → count (in_status "pending") js ≡ 0
    → All (λ x. in_status "pending" x ≡ true → a ≤ x.queued_at) js
none_first a [] e = tt
none_first a (j ∷ js) e = (ground arith, none_first a js (ground arith))

-- Oldest of a list with one more row in front that was not taken.
behind :
    (j : Job) (js : List Job) (k : Job)
    → (in_status "pending" j ≡ true → k.queued_at ≤ j.queued_at)
    → Oldest js k
    → Oldest (j ∷ js) k
behind j js k older o = record {
  place = suc o.place;
  found = o.found;
  pending = o.pending;
  first = (older, o.first);
}

pub oldest-Oldest : (js : List Job) (k : Job) → oldest js ≡ some k → Oldest js k
unfolding oldest
oldest-Oldest [] k e = absurd (ground arith)
oldest-Oldest (j ∷ js) k e = elim (Bool-cases (in_status "pending" j)) [
  | inr q ↦ behind j js k (λ p. ground arith) (oldest-Oldest js k (ground arith))
  | inl p ↦ elim (Option-cases (oldest js)) [
    | inl empty ↦
        let taken : j ≡ k = ground arith in
        subst (Oldest (j ∷ js)) taken (record {
          place = 0;
          found = refl;
          pending = p;
          first = (λ _. omega arith, none_first j.queued_at js (oldest-none js empty));
        })
    | inr (m, found) ↦ elim (Bool-cases (leb j.queued_at m.queued_at)) [
      | inl older ↦
          let taken : j ≡ k = ground arith in
          let o : Oldest js m = oldest-Oldest js m found in
          subst (Oldest (j ∷ js)) taken (record {
            place = 0;
            found = refl;
            pending = p;
            first =
                (λ _. omega arith, weaken_first m.queued_at j.queued_at js (ground arith) o.first);
          })
      | inr younger ↦
          let taken : m ≡ k = ground arith in
          subst (Oldest (j ∷ js)) taken
            (behind j js m (λ _. ground arith) (oldest-Oldest js m found))
    ]
  ]
]

lacks :
    (id : Uuid) (js : List Job) (i : ℕ) (j : Job)
    → All (λ k. k.id ≢ id) js
    → get_elem? js i ≡ some j
    → j.id ≢ id
lacks id [] i j h e = absurd (ground arith)
lacks id (k ∷ js) zero j (h, hs) e =
    let same : k ≡ j = ground arith in subst (λ (x : Job). x.id ≢ id) same h
lacks id (k ∷ js) (suc i) j (h, hs) e = lacks id js i j hs e

-- Two rows with one id are the same row.
pub row_of_id :
    (js : List Job) (i m : ℕ) (j k : Job)
    → UniqueJobs js
    → get_elem? js i ≡ some j
    → get_elem? js m ≡ some k
    → j.id ≡ k.id
    → j ≡ k
row_of_id [] i m j k u e f same = absurd (ground arith)
row_of_id (x ∷ js) zero zero j k u e f same = ground arith
row_of_id (x ∷ js) zero (suc m) j k (h, hs) e f same =
    let front : x ≡ j = ground arith in
    absurd (lacks x.id js m k h f (sym same ∙ ap (λ (y : Job). y.id) (sym front)))
row_of_id (x ∷ js) (suc i) zero j k (h, hs) e f same =
    let front : x ≡ k = ground arith in
    absurd (lacks x.id js i j h e (same ∙ ap (λ (y : Job). y.id) (sym front)))
row_of_id (x ∷ js) (suc i) (suc m) j k (h, hs) e f same = row_of_id js i m j k hs e f same
