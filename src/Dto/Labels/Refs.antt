-- ===== src/Dto/Labels/Refs.antt =====
-- The references that DeriveAnswerRefs of internal/httpapi/dto/question.go gives.
use coeus.Prelude.{
  ℕ, suc, ◌+◌, ◌≡◌, ◌≢◌, refl, sym, ap, ◌∙◌, String, true, none, some, List, [], ◌∷◌, map, arith,
  All, get_elem?, take, str_eq, eq_iff, str_eq-apart, Bool-cases, Option-cases, inl, inr,
}
use coeus.Domain.Validate.Drafts.{Among}
use coeus.Dto.Labels.{
  AnswerRef, index_of, index_to_label, id_for_value, label_at, derive_answer_refs,
}

-- An answer that is no choice has an empty id, another the label of the first choice that it is.
pub data Labelled (choices : List String) (labeling : String) (r : AnswerRef) : Type 0 where
  unknown : (Among r.value choices → ⊥) → r.id ≡ "" → Labelled choices labeling r
  first :
      (i : ℕ)
      → get_elem? choices i ≡ some r.value
      → All (λ c. c ≢ r.value) (take i choices)
      → r.id ≡ index_to_label i labeling
      → Labelled choices labeling r

-- What the loop over the choices finds from an index on.
record FoundAt (value : String) (choices : List String) (from at : ℕ) : Type 0 where
  pub place : ℕ
  pub here : at ≡ from + place
  pub found : get_elem? choices place ≡ some value
  pub before : All (λ c. c ≢ value) (take place choices)

index_of-none : (v : String) (cs : List String) (k : ℕ) → index_of v cs k ≡ none → Among v cs → ⊥
unfolding index_of
index_of-none v [] k h a = a
index_of-none v (c ∷ cs) k h (inl e) =
    let same : str_eq c v ≡ true = (eq_iff c v).1 (sym e) in ground arith
index_of-none v (c ∷ cs) k h (inr a) = index_of-none v cs (suc k) (ground arith) a

index_of-some :
    (v : String) (cs : List String) (k m : ℕ) → index_of v cs k ≡ some m → FoundAt v cs k m
unfolding index_of
index_of-some v [] k m h = absurd (ground arith)
index_of-some v (c ∷ cs) k m h = elim (Bool-cases (str_eq c v)) [
  | inl e ↦ record {
    place = 0;
    here = ground arith;
    found = ap some ((eq_iff c v).0 e);
    before = tt;
  }
  | inr e ↦
      let f : FoundAt v cs (suc k) m = index_of-some v cs (suc k) m (ground arith) in
      record {
        place = suc f.place;
        here = omega (arith, f.here);
        found = f.found;
        before = (str_eq-apart c v e, f.before);
      }
]

id_for_value-Labelled :
    (choices : List String) (v labeling : String)
    → Labelled choices labeling (record { id = id_for_value choices v labeling; value = v })
unfolding id_for_value
id_for_value-Labelled choices v labeling = elim (Option-cases (index_of v choices 0)) [
  | inl missing ↦ unknown (index_of-none v choices 0 missing) (rw missing refl)
  | inr (m, hit) ↦
      let f : FoundAt v choices 0 m = index_of-some v choices 0 m hit in
      let here : m ≡ f.place = omega (arith, f.here) in
      first f.place f.found f.before (ap (λ o. label_at o labeling) (hit ∙ ap (λ i. some i) here))
]

-- There is one reference for each answer, in order and with its value, and its id is the label of
-- the first choice that it equals, or empty where it is no choice.
pub derive_answer_refs-Labelled :
    (choices answers : List String) (labeling : String)
    → (map (λ (r : AnswerRef). r.value) (derive_answer_refs choices answers labeling) ≡ answers)
      × All (Labelled choices labeling) (derive_answer_refs choices answers labeling)
unfolding derive_answer_refs
derive_answer_refs-Labelled choices [] labeling = (refl, tt)
derive_answer_refs-Labelled choices (v ∷ answers) labeling =
    let rest = derive_answer_refs-Labelled choices answers labeling in
    (ap (λ vs. v ∷ vs) rest.0, (id_for_value-Labelled choices v labeling, rest.1))
