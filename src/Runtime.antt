-- ===== src/Runtime.antt =====
-- What the process of cmd/coeus holds besides memory: native images, connections, pools and libvips.
use coeus.Prelude.{
  ℕ, ◌+◌, ◌-◌, ◌≡◌, refl, ◌∙◌, ap, arith, String, Bool, List, Outcome, ret, raise, Exec, after,
  final, lift, map_err, map_error, modify, ◌>>=◌, ◌>>◌, Result, ok, err,
}
use coeus.Domain.Errors.{GoError}

pub record Runtime : Type 0 where
  pub images : ℕ
  pub connections : ℕ
  pub pools : ℕ
  pub vips : Bool
  pub migrations : List String

abbrev pub Native : Type 0 → Type 0
Native A = Exec GoError Runtime A

module _ {A : Type 0} where
  abbrev pub closing : (Runtime → Runtime) → Outcome GoError Runtime A → Outcome GoError Runtime A
  closing close (ret a r) = ret a (close r)
  closing close (raise e r) = raise e (close r)

  -- `defer close()`, in front of the rest of a function
  abbrev pub deferring : (Runtime → Runtime) → Native A → Native A
  deferring close m r = closing close (m r)

  -- `m` leaves the runtime as it is.
  pub record Still (m : Native A) : Type 0 where
    pub at : (r : Runtime) → final (m r) ≡ r

  still_map_error :
      (g : GoError → GoError) (o : Outcome GoError Runtime A) (r : Runtime)
      → final o ≡ r
      → final (map_error g o) ≡ r
  still_map_error g (ret a r') r h = h
  still_map_error g (raise e r') r h = h

  pub Still-map_err : (g : GoError → GoError) (m : Native A) → Still m → Still (map_err g m)
  Still-map_err g m k = record { at = λ r. still_map_error g (m r) r (k.at r) }

  pub Still-lift : (x : Result GoError A) → Still (lift x)
  Still-lift (ok a) = record { at = λ r. refl }
  Still-lift (err e) = record { at = λ r. refl }

  still_closing :
      (close : Runtime → Runtime) (o : Outcome GoError Runtime A) (r : Runtime)
      → close (final o) ≡ r
      → final (closing close o) ≡ r
  still_closing close (ret a r') r h = h
  still_closing close (raise e r') r h = h

  -- What is opened and closed again is as before.
  pub Still-deferring :
      (open_it close : Runtime → Runtime) (m : Native A)
      → ((r : Runtime) → close (open_it r) ≡ r)
      → Still m
      → Still (modify open_it >>= λ _. deferring close m)
  Still-deferring open_it close m inverse k = record {
    at = λ r. still_closing close (m (open_it r)) r (ap close (k.at (open_it r)) ∙ inverse r);
  }

module _ {A B : Type 0} where
  Still-after :
      (o : Outcome GoError Runtime A) (f : A → Native B) (r : Runtime)
      → final o ≡ r
      → ((a : A) → Still (f a))
      → final (after o f) ≡ r
  Still-after (ret a r') f r h k = (k a).at r' ∙ h
  Still-after (raise e r') f r h k = h

  pub Still-bind :
      (m : Native A) (f : A → Native B) → Still m → ((a : A) → Still (f a)) → Still (m >>= f)
  Still-bind m f k h = record { at = λ r. Still-after (m r) f r (k.at r) h }

  pub Still-then : (m : Native A) (n : Native B) → Still m → Still n → Still (m >> n)
  Still-then m n k h = Still-bind m (λ _. n) k (λ _. h)

pub ruleset still_rules = (Still-map_err, Still-lift, Still-bind, Still-then)

abbrev pub image_opened : Runtime → Runtime
image_opened r = record r { images = r.images + 1 }

abbrev pub image_closed : Runtime → Runtime
image_closed r = record r { images = r.images - 1 }

abbrev pub connected : Runtime → Runtime
connected r = record r { connections = r.connections + 1 }

abbrev pub disconnected : Runtime → Runtime
disconnected r = record r { connections = r.connections - 1 }

pub image-closed : (r : Runtime) → image_closed (image_opened r) ≡ r
image-closed r = ap (λ (n : ℕ). record r { images = n }) (omega arith)

pub connection-closed : (r : Runtime) → disconnected (connected r) ≡ r
connection-closed r = ap (λ (n : ℕ). record r { connections = n }) (omega arith)
