-- ===== src/Prelude/Effects.antt =====
-- Code that may fail: `Result` for a pure function, and `Exec` for one that reads and writes a
-- state. What was written before a failure stays written, so the state comes back with the error.
use mathlib.Core.Path.{◌≡◌, refl}
use mathlib.Core.Logic.{◌⊎◌, inl, inr}
use mathlib.Core.Bool.{Bool, true, false}

pub data Result {ℓ} (E A : Type ℓ) : Type ℓ where
  ok : A → Result E A
  err : E → Result E A

pub Result-cases {ℓ} :
    {E A : Type ℓ} (r : Result E A) → ((a : A) × (r ≡ ok a)) ⊎ ((e : E) × (r ≡ err e))
Result-cases (ok a) = inl (a, refl)
Result-cases (err e) = inr (e, refl)

pub data Outcome {ℓ} (E S A : Type ℓ) : Type ℓ where
  ret : A → S → Outcome E S A
  raise : E → S → Outcome E S A

abbrev pub Exec {ℓ} : Type ℓ → Type ℓ → Type ℓ → Type ℓ
Exec E S A = S → Outcome E S A

module _ {ℓ} {E S A B : Type ℓ} where
  abbrev pub after : Outcome E S A → (A → Exec E S B) → Outcome E S B
  after (ret a s) f = f a s
  after (raise e s) f = raise e s

  infixl 5 ◌>>=◌ ◌>>◌
  abbrev pub ◌>>=◌ : Exec E S A → (A → Exec E S B) → Exec E S B
  ◌>>=◌ m f s = after (m s) f

  abbrev pub ◌>>◌ : Exec E S A → Exec E S B → Exec E S B
  m >> n = m >>= λ _. n

module _ {ℓ} {E S A : Type ℓ} where
  -- the state in which a run ends, whether it returns or fails
  abbrev pub final : Outcome E S A → S
  final (ret a s) = s
  final (raise e s) = s

  abbrev pub lift : Result E A → Exec E S A
  lift (ok a) s = ret a s
  lift (err e) s = raise e s

  abbrev pub gets : (S → A) → Exec E S A
  gets f s = ret (f s) s

  abbrev pub map_error : {F : Type ℓ} → (E → F) → Outcome E S A → Outcome F S A
  map_error g (ret a s) = ret a s
  map_error g (raise e s) = raise (g e) s

  -- `if err != nil { return g(err) }`: another error type, or the same with a context
  abbrev pub map_err : {F : Type ℓ} → (E → F) → Exec E S A → Exec F S A
  map_err g m s = map_error g (m s)

  abbrev pub settle : Outcome E S A → Outcome E S (Result E A)
  settle (ret a s) = ret (ok a) s
  settle (raise e s) = ret (err e) s

  -- `x, err := m()`: the error is a value, for code that goes on after it
  abbrev pub attempt : Exec E S A → Exec E S (Result E A)
  attempt m s = settle (m s)

module _ {ℓ} {E S : Type ℓ} where
  abbrev pub modify : (S → S) → Exec E S (Unit {ℓ})
  modify f s = ret tt (f s)

  abbrev pub guard : Bool → E → Exec E S (Unit {ℓ})
  guard true e s = ret tt s
  guard false e s = raise e s
