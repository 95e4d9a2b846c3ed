-- ===== src/Storage/Like/Literal.antt =====
-- The patterns that escapeLike of question_repo.go makes of a search term.
use coeus.Prelude.{
  ℕ, ◌≡◌, refl, sym, ap, ◌∙◌, Bool, true, false, ◌&&◌, ◌||◌, List, [], ◌∷◌, ◌++◌, append_assoc,
  arith, ◌==◌, ==_iff, Bool-cases, inl, inr, if◌then◌else◌,
}
use coeus.Storage.Like.{replace_all, escape_like, star, literal, like}

-- A text starts with another, and holds another somewhere.
abbrev pub starts : List ℕ → List ℕ → Bool
starts [] t = true
starts (c ∷ s) [] = false
starts (c ∷ s) (d ∷ t) = d == c && starts s t

abbrev pub holds : List ℕ → List ℕ → Bool
holds s [] = starts s []
holds s (d ∷ t) = starts s (d ∷ t) || holds s t

replace_all-append :
    (old : ℕ) (new xs ys : List ℕ)
    → replace_all old new (xs ++ ys) ≡ replace_all old new xs ++ replace_all old new ys
unfolding replace_all
replace_all-append old new [] ys = refl
replace_all-append old new (x ∷ xs) ys =
    ap (λ r. (if x == old then new else x ∷ []) ++ r) (replace_all-append old new xs ys)
    ∙ sym (
        append_assoc (if x == old then new else x ∷ []) (replace_all old new xs)
          (replace_all old new ys))

abbrev special : ℕ → Bool
special c = c == 0x5C || (c == b'%' || c == b'_')

abbrev escaped : ℕ → List ℕ
escaped c = if special c then 0x5C ∷ c ∷ [] else c ∷ []

abbrev backslashes : List ℕ → List ℕ
backslashes s = replace_all 0x5C (0x5C ∷ 0x5C ∷ []) s

abbrev percents : List ℕ → List ℕ
percents s = replace_all b'%' (0x5C ∷ b'%' ∷ []) s

abbrev lines : List ℕ → List ℕ
lines s = replace_all b'_' (0x5C ∷ b'_' ∷ []) s

one_escaped :
    (c : ℕ) → lines (percents (if c == 0x5C then 0x5C ∷ 0x5C ∷ [] else c ∷ [])) ≡ escaped c
unfolding replace_all
one_escaped c = elim (Bool-cases (c == 0x5C)) [
  | inl e ↦ let same : c ≡ 0x5C = (==_iff _ _).0 e in rw same refl
  | inr e ↦ elim (Bool-cases (c == b'%')) [
    | inl p ↦ let same : c ≡ b'%' = (==_iff _ _).0 p in rw same refl
    | inr p ↦ elim (Bool-cases (c == b'_')) [
      | inl u ↦ let same : c ≡ b'_' = (==_iff _ _).0 u in rw same refl
      | inr u ↦ rw (e, p, u) refl
    ]
  ]
]

escape_like-cons : (c : ℕ) (s : List ℕ) → escape_like (c ∷ s) ≡ escaped c ++ escape_like s
unfolding escape_like replace_all
escape_like-cons c s =
    let front : List ℕ = if c == 0x5C then 0x5C ∷ 0x5C ∷ [] else c ∷ [] in
    ap lines (replace_all-append b'%' (0x5C ∷ b'%' ∷ []) front (backslashes s))
    ∙ (replace_all-append b'_' (0x5C ∷ b'_' ∷ []) (percents front) (percents (backslashes s))
        ∙ ap (λ r. r ++ escape_like s) (one_escaped c))

-- An escaped character stands for itself, in front of a pattern that is not empty.
like-escaped :
    (c d : ℕ) (ps t : List ℕ) → like (escaped c ++ (d ∷ ps)) t ≡ literal c (like (d ∷ ps)) t
unfolding like
like-escaped c d ps t = elim (Bool-cases (special c)) [
  | inl s ↦ rw s refl
  | inr s ↦
      let a : (c == 0x5C) ≡ false = ground arith in
      let b : (c == b'%') ≡ false = ground arith in
      let l : (c == b'_') ≡ false = ground arith in rw (s, b, l, a) refl
]

-- The pattern of a term, less its first `%`
abbrev tail : List ℕ → List ℕ
tail s = escape_like s ++ b'%' ∷ []

like-escaped_tail :
    (c : ℕ) (xs t : List ℕ)
    → like (escaped c ++ (xs ++ b'%' ∷ [])) t ≡ literal c (like (xs ++ b'%' ∷ [])) t
like-escaped_tail c [] t = like-escaped c b'%' [] t
like-escaped_tail c (x ∷ xs) t = like-escaped c x (xs ++ b'%' ∷ []) t

tail-cons : (c : ℕ) (s : List ℕ) → tail (c ∷ s) ≡ escaped c ++ tail s
tail-cons c s =
    ap (λ r. r ++ b'%' ∷ []) (escape_like-cons c s)
    ∙ append_assoc (escaped c) (escape_like s) (b'%' ∷ [])

like-tail : (s t : List ℕ) → like (tail s) t ≡ starts s t
unfolding like escape_like replace_all
like-tail [] t = refl
like-tail (c ∷ s) [] = ap (λ p. like p []) (tail-cons c s) ∙ like-escaped_tail c (escape_like s) []
like-tail (c ∷ s) (d ∷ t) =
    ap (λ p. like p (d ∷ t)) (tail-cons c s)
    ∙ (like-escaped_tail c (escape_like s) (d ∷ t) ∙ ap (λ b. d == c && b) (like-tail s t))

star-holds : (s t : List ℕ) → star (like (tail s)) t ≡ holds s t
unfolding star
star-holds s [] = like-tail s []
star-holds s (d ∷ t) = rw (like-tail s (d ∷ t), star-holds s t) refl

star-like : (xs t : List ℕ) → like (b'%' ∷ (xs ++ b'%' ∷ [])) t ≡ star (like (xs ++ b'%' ∷ [])) t
unfolding like
star-like [] t = refl
star-like (x ∷ xs) t = refl

-- The pattern `%term%` with an escaped term matches exactly the texts that hold the term as it is,
-- whatever percent signs, underscores and backslashes it has.
pub like-escape_like : (s t : List ℕ) → like (b'%' ∷ (escape_like s ++ b'%' ∷ [])) t ≡ holds s t
like-escape_like s t = star-like (escape_like s) t ∙ star-holds s t
