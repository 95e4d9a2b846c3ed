-- ===== src/Storage/Questions/Added.antt =====
-- What Create of internal/storage/postgres/question_repo.go adds to the questions.
use coeus.Prelude.{
  ap, ◌≡◌, refl, ◌∙◌, String, not, none, some, Option, List, [], ◌∷◌, ◌++◌, arith, any, Outcome,
  ret, raise, after, final, map_error, map_err, guard, ◌>>=◌, ◌>>◌, Bool-cases, inl, inr, ◌⊎◌,
}
use coeus.Domain.Types.{Uuid, Question}
use coeus.Domain.Errors.{GoError, wrap, pg}
use coeus.Storage.World.{Db, World, Io, pure, reading, writing, fresh_id, query, trip}
use coeus.Storage.Keeps.{Keeps, keeps_rules, Keeps-writing, Keeps-then, Keeps-pure}
use coeus.Storage.Questions.{
  with_questions, has_hash, stored, row_check, insert_question, link_tag, link_tags, add_tag,
  with_type, create_question,
}

abbrev pub SameQuestions : List Question → Db → Type 0
SameQuestions qs db = db.questions ≡ qs

abbrev pub WithQuestion : List Question → Question → Uuid → Db → Type 0
WithQuestion qs q id db = db.questions ≡ qs ++ stored id q ∷ []

pub WithQuestion-same :
    {qs qs' : List Question} (q : Question) (id : Uuid) (db : Db)
    → qs' ≡ qs
    → WithQuestion qs' q id db
    → WithQuestion qs q id db
WithQuestion-same q id db same h = h ∙ ap (λ (xs : List Question). xs ++ stored id q ∷ []) same

-- The statement adds the row, or fails and adds nothing.
abbrev pub Inserted : List Question → Question → Outcome GoError World Uuid → Type 0
Inserted qs q (ret id w) = WithQuestion qs q id w.db
Inserted qs q (raise e w) = SameQuestions qs w.db

-- A Create that fails may have added the row, where a tag could not be linked.
abbrev pub Added : List Question → Question → Outcome GoError World Uuid → Type 0
Added qs q (ret id w) = WithQuestion qs q id w.db
Added qs q (raise e w) = SameQuestions qs w.db ⊎ ((id : Uuid) × WithQuestion qs q id w.db)

abbrev adding : Question → Io Uuid
adding q = do
  taken ← reading (λ db. any (has_hash q.text_hash) db.questions)
  guard (not taken) (pg "23505" "duplicate key value violates unique constraint")
  id ← fresh_id
  writing (with_questions (λ qs. qs ++ stored id q ∷ []))
  pure id

adding-Inserted :
    (qs : List Question) (q : Question) (w : World)
    → SameQuestions qs w.db
    → Inserted qs q (adding q w)
adding-Inserted qs q w same = elim (Bool-cases (any (has_hash q.text_hash) w.db.questions)) [
  | inl used ↦ rw used same
  | inr new ↦ rw (new, same) refl
]

after-Inserted :
    (qs : List Question) (q : Question) (o : Outcome GoError World (Unit {0}))
    → SameQuestions qs (final o).db
    → Inserted qs q (after o (λ _. adding q))
after-Inserted qs q (ret a w) same = adding-Inserted qs q w same
after-Inserted qs q (raise e w) same = same

pub Keeps-row_check : (P : Db → Type 0) (q : Question) → Keeps P (row_check q)
unfolding row_check
Keeps-row_check P q = search keeps_rules depth 20

pub insert_question-Inserted :
    (qs : List Question) (q : Question) (w : World)
    → SameQuestions qs w.db
    → Inserted qs q (insert_question q w)
unfolding insert_question
insert_question-Inserted qs q w same =
    after-Inserted qs q (row_check q w) ((Keeps-row_check (SameQuestions qs) q).at w same)

trip-Inserted :
    (qs : List Question) (q : Question) (fault : Option String) (m : Io Uuid) (w : World)
    → SameQuestions qs w.db
    → Inserted qs q (m w)
    → Inserted qs q (trip fault m w)
trip-Inserted qs q none m w same h = h
trip-Inserted qs q (some e) m w same h = same

tags :
    (P : Db → Type 0)
    → ((id : Uuid) (name : String) (db : Db) → P db → P (add_tag id name db))
    → (id : Uuid) (name : String) → Keeps P (writing (add_tag id name))
tags P k id name = Keeps-writing (add_tag id name) (k id name)

pub Keeps-tags :
    (P : Db → Type 0)
    → ((id : Uuid) (name : String) (db : Db) → P db → P (add_tag id name db))
    → (id : Uuid) (names : List String) → Keeps P (link_tags id names)
unfolding link_tags link_tag
Keeps-tags P k id [] = Keeps-pure tt
Keeps-tags P k id (name ∷ names) =
    Keeps-then (map_err (wrap "link tag") (link_tag id name)) (link_tags id names)
      (search (keeps_rules, tags P k) depth 12) (Keeps-tags P k id names)

pub same_tags :
    (qs : List Question) (id : Uuid) (name : String) (db : Db)
    → SameQuestions qs db
    → SameQuestions qs (add_tag id name db)
same_tags qs id name db same = ground arith

linked :
    (qs : List Question) (q : Question) (id : Uuid) (o : Outcome GoError World (Unit {0}))
    → WithQuestion qs q id (final o).db
    → Added qs q (after o (λ _. pure id))
linked qs q id (ret a w) h = h
linked qs q id (raise e w) h = inr (id, h)

inserted :
    (qs : List Question) (q : Question) (g : GoError → GoError) (names : List String)
    (o : Outcome GoError World Uuid)
    → Inserted qs q o
    → Added qs q (after (map_error g o) (λ id. link_tags id names >> pure id))
inserted qs q g names (raise e w) h = inl h
inserted qs q g names (ret id w) h =
    linked qs q id (link_tags id names w)
      ((Keeps-tags (SameQuestions (qs ++ stored id q ∷ [])) (same_tags _) id names).at w h)

-- A Create that succeeds adds its question behind the others and changes none of them; one that
-- fails changes none either, and adds its question at most.
pub create_question-Added :
    (q : Question) (w : World) → Added w.db.questions (with_type q) (create_question q w)
unfolding create_question query
create_question-Added q w =
    inserted w.db.questions (with_type q) (wrap "create question") q.tags _ (
      trip-Inserted w.db.questions (with_type q) (w.faults w.trips) (insert_question (with_type q))
        _ refl (insert_question-Inserted w.db.questions (with_type q) _ refl))
