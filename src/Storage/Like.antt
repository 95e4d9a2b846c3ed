-- ===== src/Storage/Like.antt =====
-- LIKE patterns over code points, and escapeLike of question_repo.go.
pub mod Literal
use coeus.Prelude.{
  ℕ, String, code, Bool, true, false, ◌&&◌, ◌||◌, List, [], ◌∷◌, ◌++◌, ◌==◌, if◌then◌else◌,
}

abbrev pub code_points : String → List ℕ
code_points String.[] = []
code_points (String.◌∷◌ head rest) = code head ∷ code_points rest

-- strings.ReplaceAll(s, old, new), where old is one character
unfoldable pub replace_all : ℕ → List ℕ → List ℕ → List ℕ
replace_all old new [] = []
replace_all old new (c ∷ s) = (if c == old then new else c ∷ []) ++ replace_all old new s

unfoldable pub escape_like : List ℕ → List ℕ
unfolding replace_all
escape_like s =
    let s1 = replace_all 0x5C (0x5C ∷ 0x5C ∷ []) s in
    let s2 = replace_all b'%' (0x5C ∷ b'%' ∷ []) s1 in replace_all b'_' (0x5C ∷ b'_' ∷ []) s2

-- `%` takes any text: the rest of the pattern matches some suffix.
unfoldable pub star : (List ℕ → Bool) → List ℕ → Bool
star rest [] = rest []
star rest (c ∷ t) = rest (c ∷ t) || star rest t

abbrev any_char : (List ℕ → Bool) → List ℕ → Bool
any_char rest [] = false
any_char rest (c ∷ t) = rest t

abbrev pub literal : ℕ → (List ℕ → Bool) → List ℕ → Bool
literal d rest [] = false
literal d rest (c ∷ t) = c == d && rest t

-- The matcher of LIKE; a backslash at the end of a pattern stands for itself.
unfoldable pub like : List ℕ → List ℕ → Bool
unfolding star
like [] [] = true
like [] (c ∷ t) = false
like (p ∷ []) t =
    if p == b'%' then true else if p == b'_' then any_char (like []) t else literal p (like []) t
like (p ∷ d ∷ ps) t =
    let rest = like (d ∷ ps) in
    let skipped = like ps in
    if p == b'%'
    then star rest t
    else if p == b'_'
    then any_char rest t
    else if p == 0x5C
    then literal d skipped t
    else literal p rest t
