-- ===== src/Prelude/Newest.antt =====
-- ORDER BY t DESC. SQL leaves the order of rows with one t open; here it is that of insertion.
use Prim.Native.Nat.{ℕ, ◌≤◌}
use mathlib.Core.Logic.{inl, inr}
use mathlib.Core.List.{List, [], ◌∷◌, Perm}
use mathlib.Core.List.Perm
use native.Mathlib.Omega.{arith}
use coeus.Prelude.Tests.{if◌then◌else◌, leb, Bool-cases}
use coeus.Prelude.Lists.{All}

module _ {A : Type 0} (at : A → ℕ) where
  abbrev pub insert_newest : A → List A → List A
  insert_newest x [] = x ∷ []
  insert_newest x (y ∷ ys) =
      let rest = insert_newest x ys in if leb (at y) (at x) then x ∷ y ∷ ys else y ∷ rest

  unfoldable pub newest_first : List A → List A
  newest_first [] = []
  newest_first (x ∷ xs) = insert_newest x (newest_first xs)

  -- No row is later than one before it.
  abbrev pub Descending : List A → Type 0
  Descending [] = Unit
  Descending (x ∷ xs) = All (λ y. at y ≤ at x) xs × Descending xs

  insert_newest-Perm : (x : A) (xs : List A) → Perm (insert_newest x xs) (x ∷ xs)
  insert_newest-Perm x [] = Perm.refl _
  insert_newest-Perm x (y ∷ ys) = elim (Bool-cases (leb (at y) (at x))) [
    | inl e ↦ rw e (Perm.refl _)
    | inr e ↦ rw e (Perm.trans (Perm.cons y (insert_newest-Perm x ys)) (Perm.swap x y ys))
  ]

  pub newest_first-Perm : (xs : List A) → Perm (newest_first xs) xs
  unfolding newest_first
  newest_first-Perm [] = Perm.refl []
  newest_first-Perm (x ∷ xs) =
      Perm.trans (insert_newest-Perm x (newest_first xs)) (Perm.cons x (newest_first-Perm xs))

  All-insert :
      (n : ℕ) (x : A) (xs : List A)
      → at x ≤ n
      → All (λ y. at y ≤ n) xs
      → All (λ y. at y ≤ n) (insert_newest x xs)
  All-insert n x [] h _ = (h, tt)
  All-insert n x (y ∷ ys) h (k, ks) = elim (Bool-cases (leb (at y) (at x))) [
    | inl e ↦ rw e (h, (k, ks))
    | inr e ↦ rw e (k, All-insert n x ys h ks)
  ]

  All-le : (m n : ℕ) (xs : List A) → m ≤ n → All (λ y. at y ≤ m) xs → All (λ y. at y ≤ n) xs
  All-le m n [] h _ = tt
  All-le m n (y ∷ ys) h (k, ks) = (omega (arith, h, k), All-le m n ys h ks)

  Descending-insert : (x : A) (xs : List A) → Descending xs → Descending (insert_newest x xs)
  Descending-insert x [] _ = (tt, tt)
  Descending-insert x (y ∷ ys) (k, ks) = elim (Bool-cases (leb (at y) (at x))) [
    | inl e ↦
        let le : at y ≤ at x = ground arith in rw e ((le, All-le (at y) (at x) ys le k), (k, ks))
    | inr e ↦ rw e (All-insert (at y) x ys (ground arith) k, Descending-insert x ys ks)
  ]

  pub newest_first-Descending : (xs : List A) → Descending (newest_first xs)
  unfolding newest_first
  newest_first-Descending [] = tt
  newest_first-Descending (x ∷ xs) =
      Descending-insert x (newest_first xs) (newest_first-Descending xs)
