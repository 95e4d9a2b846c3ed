-- ===== src/Storage/Jobs/Lifecycle.antt =====
-- The states of a job under the operations of internal/storage/postgres/job_queue.go.
use coeus.Prelude.{
  ℕ, ◌≡◌, refl, eq_iff, String, Bool, true, false, ◌||◌, Option, none, some, List, [], ◌∷◌, arith,
  ==_iff, Bool-cases, inl, inr, update, get_elem?, ◌>>=◌, ◌>>◌, attempt, final,
}
use coeus.Domain.Types.{Uuid, Instant, Job}
use coeus.Storage.World.{Db, World, Io, pure, reading, writing}
use coeus.Storage.Keeps.{Keeps, keeps_rules, Keeps-writing, Keeps-bind, Keeps-pure, Keeps-attempt}
use coeus.Storage.Jobs.{
  is_job, in_status, start, oldest, claim, running, finish, give_up, complete, fail, exhausted,
  reclaimable, expire, reset, reaper_reclaim, with_jobs, take_job, claim_commit,
}
use coeus.Storage.Jobs.Rows.{
  UniqueJobs, unique-update, get_elem?-update, Oldest, oldest-Oldest, row_of_id,
}

-- done and failed
abbrev pub settled : Job → Bool
settled j = in_status "done" j || in_status "failed" j

settled-pending : (j : Job) → in_status "pending" j ≡ true → settled j ≡ false
settled-pending j p =
    let waits : j.status ≡ "pending" = (eq_iff j.status "pending").0 p in rw waits refl

settled-taken :
    (js : List Job) (i : ℕ) (j k : Job)
    → UniqueJobs js
    → get_elem? js i ≡ some j
    → settled j ≡ true
    → Oldest js k
    → is_job k.id j ≡ false
settled-taken js i j k u e s o = elim (Bool-cases (is_job k.id j)) [
  | inr other ↦ other
  | inl same ↦
      let one : j ≡ k = row_of_id js i o.place j k u e o.found ((==_iff _ _).0 same) in
      let waits : in_status "pending" j ≡ true = rw one o.pending in
      absurd (ground (arith, settled-pending j waits))
]

settled-running : (id : Uuid) (j : Job) → settled j ≡ true → in_status "processing" j ≡ false
settled-running id j s = elim (Bool-cases (in_status "processing" j)) [
  | inr other ↦ other
  | inl busy ↦
      let runs : j.status ≡ "processing" = (eq_iff j.status "processing").0 busy in
      let fresh : settled j ≡ false = rw runs refl in absurd (ground arith)
]

-- The steps that a queue takes with the jobs in it.
pub data QueueStep : Type 0 where
  claims : QueueStep
  completes : Uuid → QueueStep
  fails : Uuid → String → QueueStep
  reaps : ℕ → ℕ → QueueStep

-- A caller goes on after an error.
abbrev take_step : QueueStep → Io (Unit {0})
take_step claims = do attempt claim; pure tt
take_step (completes id) = do attempt (complete id); pure tt
take_step (fails id msg) = do attempt (fail id msg); pure tt
take_step (reaps threshold most) = do attempt (reaper_reclaim threshold most); pure tt

abbrev pub take_steps : List QueueStep → Io (Unit {0})
take_steps [] = pure tt
take_steps (s ∷ steps) = do take_step s; take_steps steps

module _ (i : ℕ) (j : Job) (final_state : settled j ≡ true) where
  abbrev Settled : Db → Type 0
  Settled db = UniqueJobs db.jobs × (get_elem? db.jobs i ≡ some j)

  Settled-update :
      (p : Job → Bool) (f : Job → Job)
      → ((k : Job) → (f k).id ≡ k.id)
      → p j ≡ false
      → (db : Db) → Settled db
      → Settled (record db { jobs = update p f db.jobs })
  Settled-update p f same idle db (u, e) =
      (unique-update p f same db.jobs u, get_elem?-update p f same i db.jobs j e idle)

  -- An UPDATE of rows that the settled one is not among.
  Keeps-update :
      (p : Job → Bool) (f : Job → Job)
      → ((k : Job) → (f k).id ≡ k.id)
      → p j ≡ false
      → Keeps Settled (writing (with_jobs (update p f)))
  Keeps-update p f same idle = Keeps-writing (with_jobs (update p f)) (Settled-update p f same idle)

  idle-running : (id : Uuid) → running id j ≡ false
  idle-running id = ground (arith, settled-running id j final_state)

  finishes :
      (id : Uuid) (at : Instant)
      → Keeps Settled (writing (with_jobs (update (running id) (finish at))))
  finishes id at = Keeps-update (running id) (finish at) (λ k. refl) (idle-running id)

  gives_up :
      (id : Uuid) (msg : String) (at : Instant)
      → Keeps Settled (writing (with_jobs (update (running id) (give_up at msg))))
  gives_up id msg at = Keeps-update (running id) (give_up at msg) (λ k. refl) (idle-running id)

  Keeps-complete : (id : Uuid) → Keeps Settled (complete id)
  unfolding complete
  Keeps-complete id = search (keeps_rules, finishes id)

  Keeps-fail : (id : Uuid) (msg : String) → Keeps Settled (fail id msg)
  unfolding fail
  Keeps-fail id msg = search (keeps_rules, gives_up id msg)

  expires :
      (threshold most : ℕ) (at : Instant)
      → Keeps Settled (writing (with_jobs (update (exhausted at threshold most) (expire at))))
  expires threshold most at =
      Keeps-update (exhausted at threshold most) (expire at) (λ k. refl)
        (ground (arith, settled-running 0 j final_state))

  resets :
      (threshold most : ℕ) (at : Instant)
      → Keeps Settled (writing (with_jobs (update (reclaimable at threshold most) reset)))
  resets threshold most at =
      Keeps-update (reclaimable at threshold most) reset (λ k. refl)
        (ground (arith, settled-running 0 j final_state))

  Keeps-reaper_reclaim : (threshold most : ℕ) → Keeps Settled (reaper_reclaim threshold most)
  unfolding reaper_reclaim
  Keeps-reaper_reclaim threshold most =
      search (keeps_rules, expires threshold most, resets threshold most) depth 12

  starts :
      (found : Option Job) (w : World)
      → oldest w.db.jobs ≡ found
      → Settled w.db
      → Settled (final (take_job found w)).db
  starts none w e h = h
  starts (some k) w e (u, g) =
      Settled-update (is_job k.id) (start w.clock) (λ k. refl)
        (settled-taken w.db.jobs i j k u g final_state (oldest-Oldest w.db.jobs k e)) w.db (u, g)

  takes : Keeps Settled (reading (λ db. oldest db.jobs) >>= take_job)
  takes = record { at = λ w h. starts (oldest w.db.jobs) w refl h }

  commits : (found : Option Job) → Keeps Settled (claim_commit found)
  unfolding claim_commit
  commits none = search keeps_rules
  commits (some k) = search keeps_rules

  Keeps-claim : Keeps Settled claim
  unfolding claim
  Keeps-claim = search (keeps_rules, takes, commits) depth 12

  Keeps-goes_on :
      {A : Type 0} (m : Io A) → Keeps Settled m → Keeps Settled (attempt m >>= λ _. pure tt)
  Keeps-goes_on m k = Keeps-bind (attempt m) (λ _. pure tt) (Keeps-attempt m k) (λ _. Keeps-pure tt)

  Keeps-take_step : (s : QueueStep) → Keeps Settled (take_step s)
  Keeps-take_step claims = Keeps-goes_on claim Keeps-claim
  Keeps-take_step (completes id) = Keeps-goes_on (complete id) (Keeps-complete id)
  Keeps-take_step (fails id msg) = Keeps-goes_on (fail id msg) (Keeps-fail id msg)
  Keeps-take_step (reaps threshold most) =
      Keeps-goes_on (reaper_reclaim threshold most) (Keeps-reaper_reclaim threshold most)

  Keeps-take_steps : (steps : List QueueStep) → Keeps Settled (take_steps steps)
  Keeps-take_steps [] = search keeps_rules
  Keeps-take_steps (s ∷ steps) = search (keeps_rules, Keeps-take_step s, Keeps-take_steps steps)

-- A job that is done or failed stays as it is, in its place, under any sequence of claims,
-- completions, failures and reaper passes, whichever of their round trips fail.
pub take_steps-settled :
    (steps : List QueueStep) (w : World) (i : ℕ) (j : Job)
    → UniqueJobs w.db.jobs
    → get_elem? w.db.jobs i ≡ some j
    → settled j ≡ true
    → get_elem? (final (take_steps steps w)).db.jobs i ≡ some j
take_steps-settled steps w i j u e s = ((Keeps-take_steps i j s steps).at w (u, e)).1
