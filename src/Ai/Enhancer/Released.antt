-- ===== src/Ai/Enhancer/Released.antt =====
-- What Enhance of internal/ai/enhancer/enhancer.go holds and answers.
use coeus.Prelude.{
  ◌≡◌, String, Bool, true, ◌||◌, Result, ok, err, str_eq, lift, ◌>>=◌, after, final, OnRet, arith,
  Outcome, ret, raise, Bool-cases, inl, inr,
}
use coeus.Domain.Types.{Bytes}
use coeus.Domain.Errors.{GoError}
use coeus.Runtime.{Runtime, Native, closing, deferring}
use coeus.Ai.Enhancer.{Vips, export_as, adjust, enhance, Still-enhance}

-- The types that Enhance writes
abbrev pub supported : String → Bool
supported mime = str_eq mime "image/jpeg" || (str_eq mime "image/png" || str_eq mime "image/webp")

module _ (mime : String) where
  record Yields {A : Type 0} (m : Native A) : Type 0 where
    pub at : (r : Runtime) → OnRet (λ _ _. supported mime ≡ true) (m r)

  module _ {A B : Type 0} where
    Yields-after :
        (o : Outcome GoError Runtime A) (f : A → Native B)
        → ((a : A) → Yields (f a))
        → OnRet (λ _ _. supported mime ≡ true) (after o f)
    Yields-after (ret a r) f k = (k a).at r
    Yields-after (raise e r) f k = tt

    Yields-bind : (m : Native A) (f : A → Native B) → ((a : A) → Yields (f a)) → Yields (m >>= f)
    Yields-bind m f k = record { at = λ r. Yields-after (m r) f k }

  module _ {A : Type 0} where
    yields_closing :
        (close : Runtime → Runtime) (o : Outcome GoError Runtime A)
        → OnRet (λ _ _. supported mime ≡ true) o
        → OnRet (λ _ _. supported mime ≡ true) (closing close o)
    yields_closing close (ret a r) h = h
    yields_closing close (raise e r) h = tt

    Yields-deferring :
        (close : Runtime → Runtime) (m : Native A) → Yields m → Yields (deferring close m)
    Yields-deferring close m k = record { at = λ r. yields_closing close (m r) (k.at r) }

  module _ {V : Type 0} (vips : Vips V) where
    Yields-export : (img : V) → Yields (lift (export_as vips mime img))
    unfolding export_as
    Yields-export img = record {
      at = λ r. elim (Bool-cases (supported mime)) [
        | inl fine ↦ answered (export_as vips mime img) r fine
        | inr bad ↦ ground arith
      ];
    }
      where
        answered :
            (x : Result GoError Bytes) (r : Runtime)
            → supported mime ≡ true
            → OnRet (λ _ _. supported mime ≡ true) (lift x r)
        answered (ok b) r fine = fine
        answered (err e) r fine = tt

    Yields-adjust : (img : V) → Yields (adjust vips img mime)
    unfolding adjust
    Yields-adjust img = search (Yields-bind, Yields-export) depth 20

    Yields-enhance :
        (alive : Result GoError (Unit {0})) (original : Bytes)
        → Yields (enhance vips alive original mime)
    unfolding enhance
    Yields-enhance alive original = search (Yields-bind, Yields-adjust, Yields-deferring) depth 12

-- Whatever libvips answers, and whether the context is alive, Enhance releases the image that it has
-- opened, also where it fails; it succeeds only for JPEG, PNG and WebP.
pub enhance-released :
    {V : Type 0} (vips : Vips V) (alive : Result GoError (Unit {0})) (original : Bytes)
    (mime : String) (r : Runtime)
    → (final (enhance vips alive original mime r) ≡ r)
      × OnRet (λ _ _. supported mime ≡ true) (enhance vips alive original mime r)
enhance-released vips alive original mime r =
    ((Still-enhance vips alive original mime).at r, (Yields-enhance mime vips alive original).at r)
