-- ===== src/Ai/Extractor/Choices.antt =====
-- The labels that internal/ai/extractor/schema.go gives to choices, against those that
-- internal/httpapi/dto/question.go shows.
use coeus.Prelude.{
  zero, ◌≤◌, ◌≢◌, ap, sym, ◌∙◌, some, get_elem?, take, All, apart-str_eq, ℕ, suc, ◌+◌, ◌<◌, ◌≡◌,
  refl, String, Bool, true, List, [], ◌∷◌, length, str_eq, eq_iff, arith, all_below-elem, ◌⊎◌, inl,
  inr, rune,
}
use coeus.Dto.Labels.{
  index_to_label, index_to_letter, letters_from, index_of, id_for_value, derive_answer_refs,
}
use coeus.Pipeline.Ports.{Answer}
use coeus.Ai.Extractor.{label_for, assign_from, assign_choice_ids}

abbrev same_letter : ℕ → Bool
same_letter i = str_eq (label_for i "letter") (index_to_label i "letter")

letters_agree : (i : ℕ) → i < 26 → label_for i "letter" ≡ index_to_label i "letter"
unfolding label_for index_to_label index_to_letter letters_from rune
letters_agree i lt = (eq_iff _ _).0 (all_below-elem same_letter 26 i refl lt)

-- The labels of the two agree: always for numbers, and for the first 26 letters.
labels_agree :
    (i : ℕ) (labeling : String)
    → (labeling ≡ "number") ⊎ ((labeling ≡ "letter") × (i < 26))
    → label_for i labeling ≡ index_to_label i labeling
unfolding label_for index_to_label
labels_agree i labeling (inl e) = rw e refl
labels_agree i labeling (inr (e, lt)) = rw e (letters_agree i lt)

-- What stands at a place of the labelled choices
assigned :
    (k : ℕ) (choices : List String) (labeling : String) (i : ℕ) (a : Answer)
    → get_elem? (assign_from k choices labeling) i ≡ some a
    → (a.id ≡ label_for (k + i) labeling) × (get_elem? choices i ≡ some a.text)
unfolding assign_from
assigned k [] labeling i a e = absurd (ground arith)
assigned k (c ∷ cs) labeling zero a e =
    let here : record { id = label_for k labeling; text = c } ≡ a = ground arith in
    let same : k + 0 ≡ k = omega arith in
    (rw same (ap (λ (x : Answer). x.id) (sym here)), ap (λ (x : Answer). some x.text) here)
assigned k (c ∷ cs) labeling (suc i) a e =
    let (label, text) = assigned (suc k) cs labeling i a e in
    let same : k + suc i ≡ suc k + i = omega arith in (rw same label, text)

index_of-first :
    (v : String) (cs : List String) (k i : ℕ)
    → get_elem? cs i ≡ some v
    → All (λ c. c ≢ v) (take i cs)
    → index_of v cs k ≡ some (k + i)
unfolding index_of
index_of-first v [] k i e h = absurd (ground arith)
index_of-first v (c ∷ cs) k zero e h =
    let hit : str_eq c v ≡ true = (eq_iff c v).1 (ground arith) in
    let same : k + 0 ≡ k = omega arith in rw (hit, same) refl
index_of-first v (c ∷ cs) k (suc i) e (apart, h) =
    let same : k + suc i ≡ suc k + i = omega arith in
    rw (apart-str_eq c v apart, same) (index_of-first v cs (suc k) i e h)

below_length : (cs : List String) (i : ℕ) (v : String) → get_elem? cs i ≡ some v → i < length cs
below_length [] i v e = absurd (ground arith)
below_length (c ∷ cs) zero v e = omega arith
below_length (c ∷ cs) (suc i) v e = omega (arith, below_length cs i v e)

-- Labels that the extractor and the wire records write alike: numbers, and the letters of up to 26
-- choices.
abbrev pub Alike : List String → String → Type 0
Alike choices labeling = (labeling ≡ "number") ⊎ ((labeling ≡ "letter") × (length choices ≤ 26))

label_for-Alike :
    (choices : List String) (labeling : String) (i : ℕ)
    → Alike choices labeling
    → i < length choices
    → label_for i labeling ≡ index_to_label i labeling
label_for-Alike choices labeling i (inl e) lt = labels_agree i labeling (inl e)
label_for-Alike choices labeling i (inr (e, few)) lt =
    labels_agree i labeling (inr (e, omega arith))

-- With numbers, or with letters for up to 26 choices, an answer that is one of the extracted choices
-- is shown to a user under the label that the extractor gave that choice, where no choice before it
-- has the same text.
pub assign_choice_ids-derive_answer_refs :
    (choices : List String) (labeling : String) (i : ℕ) (a : Answer)
    → Alike choices labeling
    → get_elem? (assign_choice_ids choices labeling) i ≡ some a
    → All (λ c. c ≢ a.text) (take i choices)
    → derive_answer_refs choices (a.text ∷ []) labeling ≡ record { id = a.id; value = a.text } ∷ []
unfolding assign_choice_ids derive_answer_refs id_for_value
assign_choice_ids-derive_answer_refs choices labeling i a alike e new =
    let (label, text) = assigned 0 choices labeling i a e in
    let zero_add : 0 + i ≡ i = omega arith in
    let at : index_of a.text choices 0 ≡ some i =
      index_of-first a.text choices 0 i text new ∙ ap (λ (n : ℕ). some n) zero_add in
    let label_i : a.id ≡ label_for i labeling =
      label ∙ ap (λ (n : ℕ). label_for n labeling) zero_add in
    let same : index_to_label i labeling ≡ a.id =
      sym
        (label_i ∙ label_for-Alike choices labeling i alike (below_length choices i a.text text)) in
    rw (at, same) refl
