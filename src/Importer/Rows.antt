-- ===== src/Importer/Rows.antt =====
-- normalizeRow and splitMulti of internal/importer/parse.go, buildQuestion of validate.go.
pub mod Cells
use coeus.Prelude.{
  ℕ, zero, suc, ◌<◌, String, Char, concat, itoa, Bool, true, false, ◌&&◌, ◌||◌, Option, none, some,
  Result, ok, err, List, [], ◌∷◌, ◌++◌, length, get_elem?, any, ltb, str_eq, trim_space, split,
  if◌then◌else◌, pos,
}
use coeus.Domain.Types.{Uuid, Instant, Question, infer_question_type}
use coeus.Domain.Errors.{GoError, plain}
use coeus.Domain.Validate.{validate_draft}
use coeus.Domain.Normalize.{normalize_question, hash_question}

-- [5]string
pub record Columns : Type 0 where
  pub text : String
  pub choices : String
  pub answers : String
  pub explanation : String
  pub tags : String

abbrev pub is_blank : String → Bool
is_blank cell = str_eq (trim_space cell) ""

abbrev keep_cell : String → List String → List String
keep_cell c [] = if is_blank c then [] else c ∷ []
keep_cell c (d ∷ ds) = c ∷ d ∷ ds

-- The loop that drops blank cells from the end.
unfoldable pub trim_cells : List String → List String
trim_cells [] = []
trim_cells (c ∷ cs) = keep_cell c (trim_cells cs)

abbrev pub cell_at : List String → ℕ → String
cell_at [] i = ""
cell_at (c ∷ cs) zero = c
cell_at (c ∷ cs) (suc i) = cell_at cs i

unfoldable pub normalize_row : List String → Result GoError Columns
unfolding trim_cells
normalize_row cells =
    let trimmed = trim_cells cells in
    if ltb 5 (length trimmed)
    then err (plain "too many columns (max 5)")
    else ok (record {
      text = cell_at trimmed 0;
      choices = cell_at trimmed 1;
      answers = cell_at trimmed 2;
      explanation = cell_at trimmed 3;
      tags = cell_at trimmed 4;
    })

-- The loop over the parts.
unfoldable pub keep_items : List String → List String
keep_items [] = []
keep_items (p ∷ ps) =
    let t = trim_space p in let rest = keep_items ps in if str_eq t "" then rest else t ∷ rest

unfoldable pub split_multi : String → List String
unfolding keep_items split trim_space
split_multi cell = keep_items (split cell b';')

abbrev pub max_file_tags : ℕ
max_file_tags = 20

abbrev tag_error : List String → Option GoError
tag_error tags =
    if ltb max_file_tags (length tags)
    then some (plain (concat "too many tags (max " (concat (itoa max_file_tags) ")")))
    else if any (λ t. str_eq t "") tags
    then some (plain "empty tag")
    else none

module _ (lower : Char → Char) (sha256_hex : String → String) where
  abbrev built : Columns → Uuid → Instant → Question
  built cols user_id at =
      let norm = normalize_question lower cols.text in
      record {
        id = 0;
        number = pos 0;
        text = cols.text;
        text_norm = norm;
        text_hash = hash_question sha256_hex norm;
        choices = split_multi cols.choices;
        answers = split_multi cols.answers;
        choice_labeling = "letter";
        type = infer_question_type (split_multi cols.choices);
        confidence = pos 990000;
        explanation = cols.explanation;
        embedding = none;
        status = "verified";
        verified_at = some at;
        verified_by = some user_id;
        tags = split_multi cols.tags ++ "import" ∷ [];
      }

  abbrev checked :
      Columns → Uuid → Instant → Option GoError → Option GoError → Result GoError Question
  checked cols user_id at (some e) tag_err = err e
  checked cols user_id at none (some e) = err e
  checked cols user_id at none none = ok (built cols user_id at)

  unfoldable pub build_question : Columns → Uuid → Instant → Result GoError Question
  unfolding hash_question
  build_question cols user_id at =
      let choices = split_multi cols.choices in
      checked cols user_id at
        (validate_draft cols.text choices (split_multi cols.answers) (infer_question_type choices))
        (tag_error (split_multi cols.tags))
