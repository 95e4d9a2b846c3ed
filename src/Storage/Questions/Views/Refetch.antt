-- ===== src/Storage/Questions/Views/Refetch.antt =====
-- What FindExpertByID of internal/storage/postgres/question_repo.go leaves as it is: everything.
use coeus.Prelude.{none, some, Option, Option-cases, inl, inr}
use coeus.Domain.Types.{Uuid, Question}
use coeus.Storage.World.{Db}
use coeus.Storage.Keeps.{Keeps, keeps_rules, Keeps-pure}
use coeus.Storage.Questions.Views.{
  QuestionExpertView, find_expert, settle_tags, one_view, expert_view,
}

pub keeps_settled : (P : Db → Type 0) (ev : QuestionExpertView) → Keeps P (settle_tags ev)
keeps_settled P ev = record {
  at = λ w h. elim (Option-cases (w.faults w.trips)) [
    | inl good ↦ rw (settle_tags, good) h
    | inr (e, bad) ↦ rw (settle_tags, bad) h
  ];
}

keeps_view : (P : Db → Type 0) (db : Db) (q : Option Question) → Keeps P (one_view db q)
keeps_view P db none = search keeps_rules
keeps_view P db (some q) = Keeps-pure (expert_view db q)

pub Keeps-find_expert : (P : Db → Type 0) (id : Uuid) → Keeps P (find_expert id)
unfolding find_expert
Keeps-find_expert P id = search (keeps_rules, keeps_view P, keeps_settled P) depth 12
