-- ===== src/Storage/Questions/Expert/Removal.antt =====
-- Which questions Delete of question_repo.go removes.
use coeus.Prelude.{ℕ, ◌<◌, ◌≡◌, false, some, arith, find, count, str_eq, ◌==◌, final}
use coeus.Domain.Types.{Uuid, Question}
use coeus.Storage.World.{Db, Link, World, query}
use coeus.Storage.Questions.{is_question, find_question}
use coeus.Storage.Questions.Expert.{delete_question}

abbrev pub linked : Uuid → Db → ℕ
linked id db = count (λ (l : Link). l.question_id == id) db.session_questions

-- A question that is linked to a session and not in error survives every attempt to delete it, and
-- so does everything else.
pub delete_question-linked :
    (id : Uuid) (w : World) (q : Question)
    → find (is_question id) w.db.questions ≡ some q
    → (str_eq q.status "error") ≡ false
    → 0 < linked id w.db
    → (final (delete_question id w)).db ≡ w.db
unfolding delete_question find_question query
delete_question-linked id w q found status used = ground arith
