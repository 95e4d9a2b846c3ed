-- ===== src/Domain/Normalize/Idempotent.antt =====
-- NormalizeQuestion of internal/domain/question.go on a text that is already normalized.
use coeus.Prelude.{
  ◌≡◌, refl, sym, ap, ◌∙◌, String, Char, List, [], ◌∷◌, map, is_space, map_runes, trim_space,
  fields, join,
}
use coeus.Domain.Normalize.{normalize_question}
use coeus.Domain.Normalize.Words.{fields-words, fields-trim_space, fields-join, fields-map_runes}

module _ (lower : Char → Char) (keeps : (c : Char) → is_space (lower c) ≡ is_space c)
    (again : (c : Char) → lower (lower c) ≡ lower c) where
  map_runes-twice : (s : String) → map_runes lower (map_runes lower s) ≡ map_runes lower s
  unfolding map_runes
  map_runes-twice String.[] = refl
  map_runes-twice (String.◌∷◌ c s) = rw (again c, map_runes-twice s) refl

  map-twice :
      (ws : List String)
      → map (map_runes lower) (map (map_runes lower) ws) ≡ map (map_runes lower) ws
  map-twice [] = refl
  map-twice (w ∷ ws) = rw (map_runes-twice w, map-twice ws) refl

  abbrev words : String → List String
  words s = fields (map_runes lower (trim_space s))

  words_lem : (s : String) → words s ≡ map (map_runes lower) (fields s)
  words_lem s =
      fields-map_runes lower keeps (trim_space s) ∙ ap (map (map_runes lower)) (fields-trim_space s)

  words-join : (s : String) → words (join (words s) " ") ≡ words s
  words-join s =
      words_lem (join (words s) " ")
      ∙ (ap (map (map_runes lower))
            (fields-join (words s) (fields-words (map_runes lower (trim_space s))) ∙ words_lem s)
          ∙ (map-twice (fields s) ∙ sym (words_lem s)))

  -- Where case folding keeps spaces and folds no character twice, normalizing a normalized question
  -- changes nothing.
  pub normalize_question-twice :
      (s : String)
      → normalize_question lower (normalize_question lower s) ≡ normalize_question lower s
  unfolding normalize_question
  normalize_question-twice s = ap (λ ws. join ws " ") (words-join s)
