-- ===== src/Dto/Labels.antt =====
-- DeriveAnswerRefs and the label functions of internal/httpapi/dto/question.go.
pub mod Columns
pub mod Refs
use coeus.Prelude.{
  ℕ, zero, suc, ◌+◌, ◌-◌, ◌/◌, ◌%◌, String, Option, none, some, Bool, true, false, List, [], ◌∷◌,
  str_eq, ◌==◌, rune, itoa, if◌then◌else◌,
}

pub record AnswerRef : Type 0 where
  pub id : String
  pub value : String

-- `for n > 0 { n--; s = string(rune('A'+n%26)) + s; n /= 26 }`, on fuel
unfoldable pub letters_from : ℕ → ℕ → String → String
letters_from zero n s = s
letters_from (suc fuel) n s = elim (n == 0) [
  | true ↦ s
  | false ↦ letters_from fuel ((n - 1) / 26) (String.◌∷◌ (rune (b'A' + (n - 1) % 26)) s)
]

-- Each round divides by 26, so `n` rounds are enough.
unfoldable pub index_to_letter : ℕ → String
unfolding letters_from
index_to_letter i = letters_from (i + 1) (i + 1) ""

unfoldable pub index_to_label : ℕ → String → String
unfolding index_to_letter itoa
index_to_label i labeling = if str_eq labeling "number" then itoa (i + 1) else index_to_letter i

-- The loop with `break`: the index of the first choice that is the value.
unfoldable pub index_of : String → List String → ℕ → Option ℕ
index_of value [] i = none
index_of value (c ∷ cs) i = if str_eq c value then some i else index_of value cs (suc i)

abbrev label_at : Option ℕ → String → String
label_at none labeling = ""
label_at (some i) labeling = index_to_label i labeling

unfoldable pub id_for_value : List String → String → String → String
unfolding index_of
id_for_value choices value labeling = label_at (index_of value choices 0) labeling

unfoldable pub derive_answer_refs : List String → List String → String → List AnswerRef
unfolding id_for_value
derive_answer_refs choices [] labeling = []
derive_answer_refs choices (v ∷ answers) labeling =
    record { id = id_for_value choices v labeling; value = v }
    ∷ derive_answer_refs choices answers labeling
