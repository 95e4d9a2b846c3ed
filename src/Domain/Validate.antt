-- ===== src/Domain/Validate.antt =====
-- internal/domain/validate.go; `none` is a nil error.
pub mod Drafts
use coeus.Prelude.{
  String, Bool, true, not, ◌&&◌, Option, none, some, List, [], ◌∷◌, any, length, ltb, str_eq, ◌==◌,
  if◌then◌else◌,
}
use coeus.Domain.Errors.{GoError, plain}

unfoldable pub answers_subset_of_choices : List String → List String → Bool
answers_subset_of_choices [] choices = true
answers_subset_of_choices (a ∷ answers) choices =
    any (λ ch. str_eq a ch) choices && answers_subset_of_choices answers choices

unfoldable pub validate_draft : String → List String → List String → String → Option GoError
validate_draft text choices answers typ =
    if str_eq text ""
    then some (plain "question text is required")
    else if ltb (length answers) 1
    then some (plain "at least one answer is required")
    else if str_eq typ "multiple_choice"
    then (if ltb (length choices) 2
        then some (plain "multiple_choice requires at least 2 choices")
        else if not (answers_subset_of_choices answers choices)
        then some (plain "answers must be a subset of choices")
        else none)
    else if str_eq typ "free_response"
    then (if not (length choices == 0)
        then some (plain "free_response must not have choices")
        else none)
    else none
