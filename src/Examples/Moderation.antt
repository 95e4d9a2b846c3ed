-- ===== src/Examples/Moderation.antt =====
-- Drafts, and the edits of experts.
use coeus.Prelude.{
  Char, ◌≡◌, ◌↔◌, refl, true, none, some, [], ◌∷◌, arith, final, ◌++◌, get_elem?, pos,
}
use coeus.Domain.Types.{QuestionUpdate}
use coeus.Domain.Normalize.{normalize_question}
use coeus.Domain.Normalize.Idempotent.{normalize_question-twice}
use coeus.Domain.Validate.{validate_draft}
use coeus.Domain.Validate.Drafts.{Draft, validate_draft-Draft}
use coeus.Storage.World.{transaction, begin, query}
use coeus.Storage.Questions.{link_tags, link_tag, status_check, type_check}
use coeus.Storage.Questions.Expert.{
  unresolved, edit_row, cleanup_image_bytes, clean_images, linked_images, update_by_expert,
}
use coeus.Storage.Questions.Expert.Verified.{AllStamped, update_by_expert-AllStamped}
use coeus.Storage.Questions.Expert.Bytes.{update_by_expert-Spared}
use coeus.Storage.Like.{escape_like, like}
use coeus.Storage.Like.Literal.{like-escape_like}
use coeus.Storage.Questions.Upserted.{Upserted}
use coeus.Storage.Questions.Expert.{delete_question}
use coeus.Storage.Questions.Expert.Removal.{delete_question-linked}
use coeus.Examples.Data.{image, question, db, world}

abbrev approval : QuestionUpdate
approval = record {
  status = "verified";
  choices = "a" ∷ "b" ∷ [];
  answers = "a" ∷ [];
  explanation = "why";
  tags = "t" ∷ [];
  confidence = pos 900000;
  type = "";
}

update_by_expert-AllStamped_example : AllStamped (final (update_by_expert 40 approval 2 world)).db
update_by_expert-AllStamped_example =
    update_by_expert-AllStamped 40 approval 2 world (refl, (refl, tt))

-- The other question of the image is still in error.
update_by_expert-Spared_example :
    get_elem? (final (update_by_expert 40 approval 2 world)).db.images 0 ≡ some image
unfolding update_by_expert unresolved transaction begin query edit_row link_tags link_tag
    cleanup_image_bytes clean_images linked_images status_check type_check
update_by_expert-Spared_example =
    update_by_expert-Spared 40 approval 2 world 0 image refl (omega arith)

validate_draft-Draft_example :
    (validate_draft "q" ("a" ∷ "b" ∷ []) ("a" ∷ []) "multiple_choice" ≡ none)
    ↔ Draft "q" ("a" ∷ "b" ∷ []) ("a" ∷ []) "multiple_choice"
validate_draft-Draft_example =
    validate_draft-Draft "q" ("a" ∷ "b" ∷ []) ("a" ∷ []) "multiple_choice"

-- `50%` is a substring of `at 50% off`, as code points.
like-escape_like_example :
    like (b'%' ∷ (escape_like (b'5' ∷ b'%' ∷ []) ++ b'%' ∷ [])) (b'a' ∷ b'5' ∷ b'%' ∷ b'o' ∷ [])
    ≡ true
like-escape_like_example = like-escape_like (b'5' ∷ b'%' ∷ []) (b'a' ∷ b'5' ∷ b'%' ∷ b'o' ∷ [])

delete_question-linked_example : (final (delete_question 40 world)).db ≡ db
delete_question-linked_example =
    delete_question-linked 40 world (question 40 "h1" "moderation") refl refl (ground arith)

abbrev folding : Char → Char
folding c = c

normalize_question-twice_example :
    normalize_question folding (normalize_question folding "  what  is it? ")
    ≡ normalize_question folding "  what  is it? "
normalize_question-twice_example =
    normalize_question-twice folding (λ c. refl) (λ c. refl) "  what  is it? "
