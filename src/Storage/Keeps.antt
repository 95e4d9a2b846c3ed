-- ===== src/Storage/Keeps.antt =====
-- Invariants of the database under the operations, one rule for each way to build an operation.
use coeus.Prelude.{
  Bool, true, false, String, Option, none, some, Outcome, ret, raise, ◌>>=◌, ◌>>◌, after, final,
  map_error, map_err, settle, attempt, guard, if◌then◌else◌, Exec,
}
use coeus.Domain.Errors.{GoError}
use coeus.Storage.World.{
  Db, World, Io, pure, throw, query, reading, writing, fresh_id, now, transaction, begin, cancelled,
  trip, rollback,
}

-- `m` keeps `P` of the database, whether it returns or fails.
pub record Keeps {E A : Type 0} (P : Db → Type 0) (m : Exec E World A) : Type 0 where
  pub at : (w : World) → P w.db → P (final (m w)).db

module _ (P : Db → Type 0) {E A : Type 0} where
  keeps_map_error :
      {F : Type 0} (g : E → F) (o : Outcome E World A)
      → P (final o).db
      → P (final (map_error g o)).db
  keeps_map_error g (ret a w) h = h
  keeps_map_error g (raise e w) h = h

  keeps_settle : (o : Outcome E World A) → P (final o).db → P (final (settle o)).db
  keeps_settle (ret a w) h = h
  keeps_settle (raise e w) h = h

  keeps_after :
      {B : Type 0} (o : Outcome E World B) (f : B → Exec E World A)
      → P (final o).db
      → ((b : B) → Keeps P (f b))
      → P (final (after o f)).db
  keeps_after (ret b w) f h k = (k b).at w h
  keeps_after (raise e w) f h k = h

module _ (P : Db → Type 0) {A : Type 0} where
  keeps_rollback :
      (before : Db) (o : Outcome GoError World A)
      → P before
      → P (final o).db
      → P (final (rollback before o)).db
  keeps_rollback before (ret a w) h k = k
  keeps_rollback before (raise e w) h k = h

  keeps_trip :
      (fault : Option String) (m : Io A) (w : World)
      → P w.db
      → Keeps P m
      → P (final (trip fault m w)).db
  keeps_trip none m w h k = k.at w h
  keeps_trip (some e) m w h k = h

module _ {P : Db → Type 0} {E A : Type 0} where
  pub Keeps-map_err :
      {F : Type 0} (g : E → F) (m : Exec E World A) → Keeps P m → Keeps P (map_err g m)
  Keeps-map_err g m k = record { at = λ w h. keeps_map_error P g (m w) (k.at w h) }

  pub Keeps-attempt : (m : Exec E World A) → Keeps P m → Keeps P (attempt m)
  Keeps-attempt m k = record { at = λ w h. keeps_settle P (m w) (k.at w h) }

  pub Keeps-if :
      (test : Bool) (first second : Exec E World A)
      → Keeps P first
      → Keeps P second
      → Keeps P (if test then first else second)
  Keeps-if true first second h k = h
  Keeps-if false first second h k = k

module _ {P : Db → Type 0} {A : Type 0} where
  pub Keeps-pure : (a : A) → Keeps P (pure a)
  Keeps-pure a = record { at = λ w h. h }

  pub Keeps-throw : (e : GoError) → Keeps P (throw {A = A} e)
  Keeps-throw e = record { at = λ w h. h }

  pub Keeps-reading : (f : Db → A) → Keeps P (reading f)
  Keeps-reading f = record { at = λ w h. h }

  pub Keeps-query : (m : Io A) → Keeps P m → Keeps P (query m)
  unfolding query
  Keeps-query m k = record { at = λ w h. keeps_trip P (w.faults w.trips) m _ h k }

  pub Keeps-transaction : (m : Io A) → Keeps P m → Keeps P (transaction m)
  unfolding transaction
  Keeps-transaction m k = record { at = λ w h. keeps_rollback P w.db (m w) h (k.at w h) }

module _ {P : Db → Type 0} {E A B : Type 0} where
  pub Keeps-bind :
      (m : Exec E World A) (f : A → Exec E World B)
      → Keeps P m
      → ((a : A) → Keeps P (f a))
      → Keeps P (m >>= f)
  Keeps-bind m f km kf = record { at = λ w h. keeps_after P (m w) f (km.at w h) kf }

  pub Keeps-then :
      (m : Exec E World A) (n : Exec E World B) → Keeps P m → Keeps P n → Keeps P (m >> n)
  Keeps-then m n km kn = Keeps-bind m (λ _. n) km (λ _. kn)

module _ {P : Db → Type 0} where
  pub Keeps-guard : {E : Type 0} (b : Bool) (e : E) → Keeps P (guard b e)
  Keeps-guard true e = record { at = λ w h. h }
  Keeps-guard false e = record { at = λ w h. h }

  pub Keeps-fresh_id : Keeps P fresh_id
  Keeps-fresh_id = record { at = λ w h. h }

  pub Keeps-now : Keeps P now
  Keeps-now = record { at = λ w h. h }

  pub Keeps-begin : Keeps P begin
  unfolding begin
  Keeps-begin = Keeps-query (pure tt) (Keeps-pure tt)

  pub Keeps-cancelled : Keeps P cancelled
  unfolding cancelled
  Keeps-cancelled = record { at = λ w h. h }

  pub Keeps-writing : (f : Db → Db) → ((db : Db) → P db → P (f db)) → Keeps P (writing f)
  Keeps-writing f k = record { at = λ w h. k w.db h }

pub ruleset keeps_rules = (
  Keeps-map_err, Keeps-attempt, Keeps-pure, Keeps-throw, Keeps-reading, Keeps-query, Keeps-if,
  Keeps-transaction, Keeps-bind, Keeps-then, Keeps-guard, Keeps-fresh_id, Keeps-now, Keeps-begin,
  Keeps-cancelled,
)
