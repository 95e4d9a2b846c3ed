-- ===== src/Examples/Labels.antt =====
-- The labels of choices.
use coeus.Prelude.{◌≡◌, refl, String, true, List, [], ◌∷◌, map, All, rune}
use coeus.Dto.Labels.{AnswerRef, index_to_letter, derive_answer_refs}
use coeus.Dto.Labels.Columns.{read_letters, all_letters, read_letters-index_to_letter}
use coeus.Dto.Labels.Refs.{Labelled, derive_answer_refs-Labelled}

index_to_letter_27 : index_to_letter 27 ≡ "AB"
unfolding index_to_letter rune
index_to_letter_27 = refl

read_letters-index_to_letter_example :
    (read_letters 0 (index_to_letter 27) ≡ 28) × (all_letters (index_to_letter 27) ≡ true)
read_letters-index_to_letter_example = read_letters-index_to_letter 27

abbrev choices : List String
choices = "yes" ∷ "no" ∷ []

derive_answer_refs-Labelled_example :
    (map (λ (r : AnswerRef). r.value) (derive_answer_refs choices ("no" ∷ "maybe" ∷ []) "letter")
      ≡ "no" ∷ "maybe" ∷ [])
    × All (Labelled choices "letter") (derive_answer_refs choices ("no" ∷ "maybe" ∷ []) "letter")
derive_answer_refs-Labelled_example =
    derive_answer_refs-Labelled choices ("no" ∷ "maybe" ∷ []) "letter"
