-- ===== src/Prelude/Post.antt =====
-- What holds of the result and the state where a run returns; a failing run satisfies it.
use coeus.Prelude.Effects.{Outcome, ret, raise, Exec, Result, after, map_error, settle}

module _ {ℓ} {E S A : Type ℓ} where
  abbrev pub OnRet : (A → S → Type ℓ) → Outcome E S A → Type ℓ
  OnRet Q (ret a s) = Q a s
  OnRet Q (raise e s) = Unit

module _ {ℓ} {E S A B : Type ℓ} where
  pub OnRet-after :
      (R : A → S → Type ℓ) (Q : B → S → Type ℓ) (o : Outcome E S A) (f : A → Exec E S B)
      → OnRet R o
      → ((a : A) (s : S) → R a s → OnRet Q (f a s))
      → OnRet Q (after o f)
  OnRet-after R Q (ret a s) f h k = k a s h
  OnRet-after R Q (raise e s) f h k = tt

module _ {ℓ} {E F S A : Type ℓ} where
  pub OnRet-map_error :
      (Q : A → S → Type ℓ) (g : E → F) (o : Outcome E S A) → OnRet Q o → OnRet Q (map_error g o)
  OnRet-map_error Q g (ret a s) h = h
  OnRet-map_error Q g (raise e s) h = tt

module _ {ℓ} {E S A : Type ℓ} where
  pub OnRet-weaken :
      (R Q : A → S → Type ℓ) (o : Outcome E S A)
      → OnRet R o
      → ((a : A) (s : S) → R a s → Q a s)
      → OnRet Q o
  OnRet-weaken R Q (ret a s) h k = k a s h
  OnRet-weaken R Q (raise e s) h k = tt

  pub OnRet-always :
      (Q : A → S → Type ℓ) (o : Outcome E S A) → ((a : A) (s : S) → Q a s) → OnRet Q o
  OnRet-always Q (ret a s) h = h a s
  OnRet-always Q (raise e s) h = tt

  pub OnRet-both :
      (P Q : A → S → Type ℓ) (o : Outcome E S A)
      → OnRet P o
      → OnRet Q o
      → OnRet (λ a s. P a s × Q a s) o
  OnRet-both P Q (ret a s) h k = (h, k)
  OnRet-both P Q (raise e s) h k = tt

-- What holds of a run that never fails.
module _ {E S A : Type 0} where
  abbrev pub Always : (A → S → Type 0) → Outcome E S A → Type 0
  Always Q (ret a s) = Q a s
  Always Q (raise e s) = ⊥

  pub Always→OnRet : (Q : A → S → Type 0) (o : Outcome E S A) → Always Q o → OnRet Q o
  Always→OnRet Q (ret a s) h = h
  Always→OnRet Q (raise e s) h = tt

  pub Always-both :
      (P Q : A → S → Type 0) (o : Outcome E S A)
      → Always P o
      → Always Q o
      → Always (λ a s. P a s × Q a s) o
  Always-both P Q (ret a s) h k = (h, k)
  Always-both P Q (raise e s) h k = h

module _ {E S A B : Type 0} where
  pub Always-after :
      (R : A → S → Type 0) (Q : B → S → Type 0) (o : Outcome E S A) (f : A → Exec E S B)
      → Always R o
      → ((a : A) (s : S) → R a s → Always Q (f a s))
      → Always Q (after o f)
  Always-after R Q (ret a s) f h k = k a s h
  Always-after R Q (raise e s) f h k = absurd h

  -- An error that is a value fails nothing.
  pub Always-settle :
      (Q : B → S → Type 0) (o : Outcome E S A) (f : Result E A → Exec E S B)
      → ((r : Result E A) (s : S) → Always Q (f r s))
      → Always Q (after (settle o) f)
  Always-settle Q (ret a s) f k = k (Result.ok a) s
  Always-settle Q (raise e s) f k = k (Result.err e) s
