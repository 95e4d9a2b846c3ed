-- ===== src/Storage/Spends.antt =====
-- What holds of the looks at the context that are left, under runs that can only use them up. There is
-- one rule for each way to build a run.
pub mod Calls
use coeus.Prelude.{
  ℕ, Bool, true, false, String, Option, none, some, Outcome, ret, raise, ◌>>=◌, ◌>>◌, after, final,
  map_error, map_err, settle, attempt, guard, if◌then◌else◌, lift, Result, ok, err, Always,
}
use coeus.Domain.Errors.{GoError}
use coeus.Storage.World.{
  Db, World, Io, pure, throw, query, reading, writing, fresh_id, now, transaction, begin, cancelled,
  trip, rollback, spend,
}

-- `m` keeps `L` of what is left, whether it returns or fails.
pub record Spends {A : Type 0} (L : Option ℕ → Type 0) (m : Io A) : Type 0 where
  pub at : (w : World) → L w.left → L (final (m w)).left

module _ (L : Option ℕ → Type 0) {A : Type 0} where
  spends_map_error :
      (g : GoError → GoError) (o : Outcome GoError World A)
      → L (final o).left
      → L (final (map_error g o)).left
  spends_map_error g (ret a w) h = h
  spends_map_error g (raise e w) h = h

  spends_settle : (o : Outcome GoError World A) → L (final o).left → L (final (settle o)).left
  spends_settle (ret a w) h = h
  spends_settle (raise e w) h = h

  spends_rollback :
      (before : Db) (o : Outcome GoError World A)
      → L (final o).left
      → L (final (rollback before o)).left
  spends_rollback before (ret a w) h = h
  spends_rollback before (raise e w) h = h

  spends_trip :
      (fault : Option String) (m : Io A) (w : World)
      → L w.left
      → Spends L m
      → L (final (trip fault m w)).left
  spends_trip none m w h k = k.at w h
  spends_trip (some e) m w h k = h

  spends_after :
      {B : Type 0} (o : Outcome GoError World B) (f : B → Io A)
      → L (final o).left
      → ((b : B) → Spends L (f b))
      → L (final (after o f)).left
  spends_after (ret b w) f h k = (k b).at w h
  spends_after (raise e w) f h k = h

  settled : (o : Outcome GoError World A) → L (final o).left → Always (λ _ w. L w.left) (settle o)
  settled (ret a w) h = h
  settled (raise e w) h = h

module _ {L : Option ℕ → Type 0} {A : Type 0} where
  pub Spends-map_err : (g : GoError → GoError) (m : Io A) → Spends L m → Spends L (map_err g m)
  Spends-map_err g m k = record { at = λ w h. spends_map_error L g (m w) (k.at w h) }

  pub Spends-attempt : (m : Io A) → Spends L m → Spends L (attempt m)
  Spends-attempt m k = record { at = λ w h. spends_settle L (m w) (k.at w h) }

  pub Spends-pure : (a : A) → Spends L (pure a)
  Spends-pure a = record { at = λ w h. h }

  pub Spends-throw : (e : GoError) → Spends L (throw {A = A} e)
  Spends-throw e = record { at = λ w h. h }

  pub Spends-lift : (r : Result GoError A) → Spends L (lift r)
  Spends-lift (ok a) = record { at = λ w h. h }
  Spends-lift (err e) = record { at = λ w h. h }

  pub Spends-reading : (f : Db → A) → Spends L (reading f)
  Spends-reading f = record { at = λ w h. h }

  pub Spends-query : (m : Io A) → Spends L m → Spends L (query m)
  unfolding query
  Spends-query m k = record { at = λ w h. spends_trip L (w.faults w.trips) m _ h k }

  pub Spends-transaction : (m : Io A) → Spends L m → Spends L (transaction m)
  unfolding transaction
  Spends-transaction m k = record { at = λ w h. spends_rollback L w.db (m w) (k.at w h) }

  pub Spends-if :
      (test : Bool) (first second : Io A)
      → Spends L first
      → Spends L second
      → Spends L (if test then first else second)
  Spends-if true first second h k = h
  Spends-if false first second h k = k

  pub Spends-elim :
      (test : Bool) (m n : Io A)
      → Spends L m
      → Spends L n
      → Spends L (elim test [ true ↦ m | false ↦ n ])
  Spends-elim true m n h k = h
  Spends-elim false m n h k = k

  -- A run whose error is a value never fails, and keeps `L`.
  pub Always-attempt :
      (m : Io A) (w : World) → Spends L m → L w.left → Always (λ _ w'. L w'.left) (attempt m w)
  Always-attempt m w k h = settled L (m w) (k.at w h)

module _ {L : Option ℕ → Type 0} {A B : Type 0} where
  pub Spends-bind :
      (m : Io A) (f : A → Io B) → Spends L m → ((a : A) → Spends L (f a)) → Spends L (m >>= f)
  Spends-bind m f km kf = record { at = λ w h. spends_after L (m w) f (km.at w h) kf }

  pub Spends-then : (m : Io A) (n : Io B) → Spends L m → Spends L n → Spends L (m >> n)
  Spends-then m n km kn = Spends-bind m (λ _. n) km (λ _. kn)

module _ {L : Option ℕ → Type 0} where
  pub Spends-guard : (b : Bool) (e : GoError) → Spends L (guard b e)
  Spends-guard true e = record { at = λ w h. h }
  Spends-guard false e = record { at = λ w h. h }

  pub Spends-fresh_id : Spends L fresh_id
  Spends-fresh_id = record { at = λ w h. h }

  pub Spends-now : Spends L now
  Spends-now = record { at = λ w h. h }

  pub Spends-begin : Spends L begin
  unfolding begin
  Spends-begin = Spends-query (pure tt) (Spends-pure tt)

  pub Spends-writing : (f : Db → Db) → Spends L (writing f)
  Spends-writing f = record { at = λ w h. h }

  pub Spends-cancelled : ((l : Option ℕ) → L l → L (spend l)) → Spends L cancelled
  unfolding cancelled
  Spends-cancelled k = record { at = λ w h. k w.left h }

pub ruleset spends_rules = (
  Spends-map_err, Spends-attempt, Spends-pure, Spends-throw, Spends-lift, Spends-reading,
  Spends-query, Spends-if, Spends-elim, Spends-transaction, Spends-bind, Spends-then, Spends-guard,
  Spends-fresh_id, Spends-now, Spends-begin, Spends-writing,
)
