-- ===== src/Dto/Labels/Columns.antt =====
-- The labels that indexToLetter of internal/httpapi/dto/question.go gives.
use coeus.Prelude.{
  ℕ, zero, suc, ◌+◌, ◌-◌, ◌*◌, ◌/◌, ◌%◌, ◌≤◌, ◌<◌, ◌≡◌, refl, ap, ◌∙◌, String, Char, code, Bool,
  true, false, arith, rune, ◌==◌, Bool-cases, ==_iff, all_below-elem, inl, inr, ◌&&◌, leb,
}
use Prim.Native.String.{◌∷◌}
use coeus.Dto.Labels.{letters_from, index_to_letter}

-- The number that letters stand for: bijective base 26, with A = 1.
abbrev pub read_letters : ℕ → String → ℕ
read_letters n String.[] = n
read_letters n (c ∷ s) = read_letters (n * 26 + (code c - b'@')) s

abbrev pub all_letters : String → Bool
all_letters String.[] = true
all_letters (c ∷ s) = (leb b'A' (code c) && leb (code c) b'Z') && all_letters s

abbrev letter_code : ℕ → Bool
letter_code k = code (rune (b'A' + k)) == b'A' + k

code-rune : (k : ℕ) → k < 26 → code (rune (b'A' + k)) ≡ b'A' + k
unfolding rune
code-rune k lt = (==_iff _ _).0 (all_below-elem letter_code 26 k refl lt)

abbrev last_letter : ℕ → ℕ
last_letter n = (n - 1) % 26

code-last_letter : (n : ℕ) → code (rune (b'A' + last_letter n)) ≡ b'A' + last_letter n
code-last_letter n = code-rune (last_letter n) (omega arith)

module _ (fuel n : ℕ) (s : String) where
  stop : (n == 0) ≡ true → letters_from (suc fuel) n s ≡ s
  unfolding letters_from
  stop e = rw (letters_from, e) refl

  round :
      (n == 0) ≡ false
      → letters_from (suc fuel) n s
        ≡ letters_from fuel ((n - 1) / 26) (rune (b'A' + last_letter n) ∷ s)
  unfolding letters_from
  round e = rw (letters_from, e) refl

-- Any fuel that is no less than the number is enough for its letters.
read_letters-letters_from :
    (fuel n : ℕ) (s : String) → n ≤ fuel → read_letters 0 (letters_from fuel n s) ≡ read_letters n s
unfolding letters_from
read_letters-letters_from zero n s h = let none_left : n ≡ 0 = omega (arith, h) in rw none_left refl
read_letters-letters_from (suc fuel) n s h = elim (Bool-cases (n == 0)) [
  | inl e ↦
      let none_left : n ≡ 0 = (==_iff n 0).0 e in
      ap (read_letters 0) (stop fuel n s e) ∙ rw none_left refl
  | inr e ↦
      let front : Char = rune (b'A' + last_letter n) in
      let shorter : (n - 1) / 26 ≤ fuel = omega (arith, h) in
      let back : (n - 1) / 26 * 26 + (code front - b'@') ≡ n =
        rw (code-last_letter n) (let p : (n == 0) ≡ false = e in ground arith) in
      ap (read_letters 0) (round fuel n s e)
      ∙ (read_letters-letters_from fuel ((n - 1) / 26) (front ∷ s) shorter
          ∙ ap (λ k. read_letters k s) back)
]

all_letters-letters_from :
    (fuel n : ℕ) (s : String) → all_letters s ≡ true → all_letters (letters_from fuel n s) ≡ true
unfolding letters_from
all_letters-letters_from zero n s h = h
all_letters-letters_from (suc fuel) n s h = elim (Bool-cases (n == 0)) [
  | inl e ↦ rw (stop fuel n s e) h
  | inr e ↦
      let front : Char = rune (b'A' + last_letter n) in
      let letter : all_letters (front ∷ s) ≡ true = rw (code-last_letter n) (ground arith) in
      rw (round fuel n s e) (all_letters-letters_from fuel ((n - 1) / 26) (front ∷ s) letter)
]

-- The letters of an index are capitals from A to Z, and they read back in bijective base 26 as the
-- index counted from one, so two choices never share a label.
pub read_letters-index_to_letter :
    (i : ℕ)
    → (read_letters 0 (index_to_letter i) ≡ i + 1) × (all_letters (index_to_letter i) ≡ true)
unfolding index_to_letter
read_letters-index_to_letter i = (
  read_letters-letters_from (i + 1) (i + 1) "" (omega arith),
  all_letters-letters_from (i + 1) (i + 1) "" refl,
)
