-- ===== src/Pipeline/Failure/Placeholder.antt =====
-- The placeholder question of handleExtractionFailure of internal/pipeline/pipeline.go.
use coeus.Prelude.{String, arith, OnRet}
use coeus.Domain.Types.{Uuid}
use coeus.Storage.World.{World, query}
use coeus.Storage.Questions.{create_question, insert_question, row_check, labeling_check}
use coeus.Pipeline.Ports.{Services}
use coeus.Pipeline.Failure.{placeholder}

-- The database refuses the placeholder of every image: its choice labeling is empty, which the
-- constraint on the column does not allow.
pub create_question-placeholder :
    (svc : Services) (image_id : Uuid) (code : String) (w : World)
    → OnRet (λ _ _. ⊥) (create_question (placeholder svc image_id code) w)
unfolding create_question insert_question row_check labeling_check query placeholder
create_question-placeholder svc image_id code w = ground arith
