-- ===== src/Storage/Reads.antt =====
-- Steps that leave the database as it is, and what their result says of it. The rules take a
-- transaction up to its write.
use coeus.Prelude.{
  ◌≡◌, refl, ◌∙◌, subst, Bool, true, false, none, some, Option, String, Outcome, ret, raise, ◌>>=◌,
  after, final, map_err, guard, OnRet, OnRet-map_error,
}
use coeus.Domain.Errors.{GoError}
use coeus.Storage.World.{Db, World, Io, pure, query, reading, begin, trip, rollback, transaction}

pub record Reads {A : Type 0} (R : A → Db → Type 0) (m : Io A) : Type 0 where
  pub at : (w : World) → OnRet (λ a w'. (w'.db ≡ w.db) × R a w.db) (m w)

module _ {A : Type 0} (R : A → Db → Type 0) where
  pub Reads-map_err : (g : GoError → GoError) (m : Io A) → Reads R m → Reads R (map_err g m)
  Reads-map_err g m k = record {
    at = λ w. OnRet-map_error (λ a w'. (w'.db ≡ w.db) × R a w.db) g (m w) (k.at w);
  }

  Reads-trip :
      (fault : Option String) (m : Io A) (w : World) (db : Db)
      → w.db ≡ db
      → Reads R m
      → OnRet (λ a w'. (w'.db ≡ db) × R a db) (trip fault m w)
  Reads-trip none m w db e k = subst (λ d. OnRet (λ a w'. (w'.db ≡ d) × R a d) (m w)) e (k.at w)
  Reads-trip (some x) m w db e k = tt

  pub Reads-query : (m : Io A) → Reads R m → Reads R (query m)
  unfolding query
  Reads-query m k = record { at = λ w. Reads-trip (w.faults w.trips) m _ w.db refl k }

  pub Reads-pure : (a : A) → ((db : Db) → R a db) → Reads R (pure a)
  Reads-pure a k = record { at = λ w. (refl, k w.db) }

module _ {A : Type 0} where
  pub Reads-reading : (f : Db → A) → Reads (λ a db. a ≡ f db) (reading f)
  Reads-reading f = record { at = λ w. (refl, refl) }

-- A guard that lets a run pass has found its test true.
pub Reads-guard : (b : Bool) (e : GoError) → Reads (λ _ _. b ≡ true) (guard b e)
Reads-guard true e = record { at = λ w. (refl, refl) }
Reads-guard false e = record { at = λ w. tt }

pub Reads-commit : Reads (λ _ _. Unit {0}) (query (pure (tt {0})))
Reads-commit = Reads-query (λ _ _. Unit) (pure tt) (Reads-pure (λ _ _. Unit) tt (λ _. tt))

pub Reads-begin : Reads (λ _ _. Unit {0}) begin
unfolding begin
Reads-begin = Reads-commit

module _ {A B : Type 0} where
  -- One step of a transaction before its write: the run goes on with the database it began with.
  pub OnRet-read :
      {R : A → Db → Type 0} (Q : B → World → Type 0) (db : Db) (m : Io A) (f : A → Io B) (w : World)
      → w.db ≡ db
      → Reads R m
      → ((a : A) (w' : World) → w'.db ≡ db → R a db → OnRet Q (f a w'))
      → OnRet Q (after (m w) f)
  OnRet-read {R} Q db m f w e k go = step (m w) (k.at w)
    where
      step :
          (o : Outcome GoError World A)
          → OnRet (λ a w'. (w'.db ≡ w.db) × R a w.db) o
          → OnRet Q (after o f)
      step (ret a w') (same, r) = go a w' (same ∙ e) (subst (R a) e r)
      step (raise x w') h = tt

module _ {A : Type 0} (P : Db → Type 0) where
  final_rollback :
      (o : Outcome GoError World A) (db : Db)
      → P db
      → OnRet (λ _ w'. P w'.db) o
      → P (final (rollback db o)).db
  final_rollback (ret a w) db h k = k
  final_rollback (raise e w) db h k = h

  -- A transaction keeps what holds before it and what its commit establishes.
  pub final-transaction :
      (m : Io A) (w : World)
      → P w.db
      → OnRet (λ _ w'. P w'.db) (m w)
      → P (final (transaction m w)).db
  unfolding transaction
  final-transaction m w h k = final_rollback (m w) w.db h k

module _ {A : Type 0} where
  -- The end of a transaction: its commit, and the result.
  pub OnRet-commit :
      (Q : A → World → Type 0) (g : GoError → GoError) (a : A) (w : World)
      → ((w' : World) → w'.db ≡ w.db → Q a w')
      → OnRet Q ((map_err g (query (pure (tt {0}))) >>= λ _. pure a) w)
  OnRet-commit Q g a w k =
      OnRet-read Q w.db (map_err g (query (pure tt))) (λ _. pure a) w refl
        (Reads-map_err (λ _ _. Unit) g (query (pure tt)) Reads-commit) (λ _ w' e _. k w' e)
