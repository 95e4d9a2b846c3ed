-- ===== src/Http/Passwords.antt =====
-- GeneratePassword of internal/auth/password.go. `draw i` is the i-th answer of crypto/rand for a
-- number below the size of the alphabet.
use coeus.Prelude.{
  ℕ, zero, suc, ◌<◌, ◌≡◌, refl, ap, String, Char, code, Bool, true, false, ◌||◌, ◌&&◌, Option, none,
  some, Result, ok, err, arith, ◌==◌,
}
use Prim.Native.String.{[], ◌∷◌}
use coeus.Domain.Errors.{GoError, wrap}

abbrev pub generated_password_length : ℕ
generated_password_length = 20

abbrev pub password_alphabet : String
password_alphabet = "ABCDEFGHIJKLMNOPQRSTUVWXYZabcdefghijklmnopqrstuvwxyz0123456789!@#$%^&*"

abbrev pub runes : String → ℕ
runes [] = 0
runes (c ∷ s) = suc (runes s)

-- s[i]; out of range is a panic, which no index below the size meets.
abbrev pub rune_at : String → ℕ → Option Char
rune_at [] i = none
rune_at (c ∷ s) zero = some c
rune_at (c ∷ s) (suc i) = rune_at s i

abbrev put : Option Char → Result GoError String → Result GoError String
put none rest = rest
put (some c) (ok s) = ok (c ∷ s)
put (some c) (err e) = err e

abbrev filled : Result GoError ℕ → Result GoError String → Result GoError String
filled (err e) rest = err (wrap "generate password" e)
filled (ok idx) rest = put (rune_at password_alphabet idx) rest

-- The loop over the positions from `i` on, `left` of them.
unfoldable pub generate_from : (ℕ → Result GoError ℕ) → ℕ → ℕ → Result GoError String
generate_from draw zero i = ok []
generate_from draw (suc left) i = filled (draw i) (generate_from draw left (suc i))

unfoldable pub generate_password : (ℕ → Result GoError ℕ) → Result GoError String
unfolding generate_from
generate_password draw = generate_from draw generated_password_length 0

abbrev pub among : String → Char → Bool
among [] c = false
among (d ∷ s) c = (code d == code c) || among s c

abbrev pub all_among : String → String → Bool
all_among alphabet [] = true
all_among alphabet (c ∷ s) = among alphabet c && all_among alphabet s

rune_at-some :
    (s : String) (i : ℕ) → i < runes s → (c : Char) × (rune_at s i ≡ some c) × (among s c ≡ true)
rune_at-some [] i h = absurd (omega (arith, h))
rune_at-some (c ∷ s) zero h = (c, refl, ground arith)
rune_at-some (c ∷ s) (suc i) h =
    let (d, found, here) = rune_at-some s i (omega (arith, h)) in (d, found, ground arith)

-- What a generated password is made of
abbrev pub Generated : ℕ → Result GoError String → Type 0
Generated n (ok s) = (runes s ≡ n) × (all_among password_alphabet s ≡ true)
Generated n (err e) = Unit

filled-Generated :
    (n : ℕ) (r : Result GoError ℕ) (rest : Result GoError String)
    → ((i : ℕ) → r ≡ ok i → i < 70)
    → Generated n rest
    → Generated (suc n) (filled r rest)
filled-Generated n (err e) rest below h = tt
filled-Generated n (ok i) (err e) below h =
    let (c, found, here) = rune_at-some password_alphabet i (below i refl) in rw found tt
filled-Generated n (ok i) (ok s) below h =
    let (c, found, here) = rune_at-some password_alphabet i (below i refl) in
    rw found (ap suc h.0, ground (arith, h.1, here))

generate_from-Generated :
    (draw : ℕ → Result GoError ℕ)
    → ((k i : ℕ) → draw k ≡ ok i → i < 70)
    → (left k : ℕ) → Generated left (generate_from draw left k)
unfolding generate_from
generate_from-Generated draw below zero k = (refl, refl)
generate_from-Generated draw below (suc left) k =
    filled-Generated left (draw k) (generate_from draw left (suc k)) (below k)
      (generate_from-Generated draw below left (suc k))

-- Where the random source answers below the size of the alphabet, a generated password has twenty
-- characters, all of the alphabet.
pub generate_password-Generated :
    (draw : ℕ → Result GoError ℕ)
    → ((k i : ℕ) → draw k ≡ ok i → i < 70)
    → Generated 20 (generate_password draw)
unfolding generate_password
generate_password-Generated draw below = generate_from-Generated draw below 20 0
