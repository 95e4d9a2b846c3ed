-- ===== src/Domain/Validate/Drafts.antt =====
-- Which drafts ValidateDraft of internal/domain/validate.go accepts.
use coeus.Prelude.{
  ◌≤◌, ◌≡◌, ◌≢◌, ◌↔◌, refl, String, true, false, none, List, [], ◌∷◌, arith, any, length, str_eq,
  eq_iff, apart-str_eq, All, Bool-cases, inl, inr, ◌⊎◌,
}
use coeus.Domain.Validate.{answers_subset_of_choices, validate_draft}

-- One of the choices is the answer.
abbrev pub Among : String → List String → Type 0
Among a [] = ⊥
Among a (c ∷ cs) = (a ≡ c) ⊎ Among a cs

-- What a draft has to be, by its type.
pub record Draft (text : String) (choices answers : List String) (typ : String) : Type 0 where
  pub has_text : text ≢ ""
  pub has_answer : 1 ≤ length answers
  pub two_choices : typ ≡ "multiple_choice" → 2 ≤ length choices
  pub chosen : typ ≡ "multiple_choice" → All (λ a. Among a choices) answers
  pub no_choices : typ ≡ "free_response" → choices ≡ []

any-Among :
    (a : String) (choices : List String) → any (λ c. str_eq a c) choices ≡ true → Among a choices
any-Among a [] h = absurd (ground arith)
any-Among a (c ∷ cs) h = elim (Bool-cases (str_eq a c)) [
  | inl e ↦ inl ((eq_iff a c).0 e)
  | inr e ↦ inr (any-Among a cs (ground arith))
]

Among-any :
    (a : String) (choices : List String) → Among a choices → any (λ c. str_eq a c) choices ≡ true
Among-any a [] h = absurd h
Among-any a (c ∷ cs) (inl e) = let hit : str_eq a c ≡ true = (eq_iff a c).1 e in rw hit refl
Among-any a (c ∷ cs) (inr h) = ground (arith, Among-any a cs h)

subset-All :
    (answers choices : List String)
    → answers_subset_of_choices answers choices ≡ true
    → All (λ a. Among a choices) answers
unfolding answers_subset_of_choices
subset-All [] choices h = tt
subset-All (a ∷ answers) choices h =
    (any-Among a choices (ground arith), subset-All answers choices (ground arith))

All-subset :
    (answers choices : List String)
    → All (λ a. Among a choices) answers
    → answers_subset_of_choices answers choices ≡ true
unfolding answers_subset_of_choices
All-subset [] choices h = refl
All-subset (a ∷ answers) choices (h, hs) =
    rw (Among-any a choices h) (All-subset answers choices hs)

module _ (text : String) (choices answers : List String) where
  has_text : (typ : String) → validate_draft text choices answers typ ≡ none → text ≢ ""
  unfolding validate_draft
  has_text typ h e = let empty : str_eq text "" ≡ true = (eq_iff text "").1 e in ground arith

  has_answer : (typ : String) → validate_draft text choices answers typ ≡ none → 1 ≤ length answers
  unfolding validate_draft
  has_answer typ h = ground arith

  multiple :
      validate_draft text choices answers "multiple_choice" ≡ none
      → (2 ≤ length choices) × (answers_subset_of_choices answers choices ≡ true)
  unfolding validate_draft
  multiple h = ground arith

  free : validate_draft text choices answers "free_response" ≡ none → choices ≡ []
  unfolding validate_draft
  free h = ground arith

  module _ (typ : String) where
    accepted : validate_draft text choices answers typ ≡ none → Draft text choices answers typ
    accepted h = record {
      has_text = has_text typ h;
      has_answer = has_answer typ h;
      two_choices = λ e. (multiple (rw (← e) h)).0;
      chosen = λ e. subset-All answers choices (multiple (rw (← e) h)).1;
      no_choices = λ e. free (rw (← e) h);
    }

    accepts : Draft text choices answers typ → validate_draft text choices answers typ ≡ none
    unfolding validate_draft
    accepts d =
        let filled : str_eq text "" ≡ false = apart-str_eq text "" d.has_text in
        elim (Bool-cases (str_eq typ "multiple_choice")) [
          | inl e ↦
              let mc : typ ≡ "multiple_choice" = (eq_iff typ "multiple_choice").0 e in
              ground (
                arith,
                filled,
                d.has_answer,
                d.two_choices mc,
                All-subset answers choices (d.chosen mc),
              )
          | inr e ↦ elim (Bool-cases (str_eq typ "free_response")) [
            | inl fr ↦
                ground
                  (arith, filled, d.has_answer, d.no_choices ((eq_iff typ "free_response").0 fr))
            | inr other ↦ ground (arith, filled, d.has_answer)
          ]
        ]

-- A nil error means exactly that the text is not empty, there is an answer, a multiple choice has
-- two choices and all answers among them, and a free response has no choices.
pub validate_draft-Draft :
    (text : String) (choices answers : List String) (typ : String)
    → (validate_draft text choices answers typ ≡ none) ↔ Draft text choices answers typ
validate_draft-Draft text choices answers typ =
    (accepted text choices answers typ, accepts text choices answers typ)
