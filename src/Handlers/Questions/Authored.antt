-- ===== src/Handlers/Questions/Authored.antt =====
-- What Create of internal/httpapi/handlers/questions.go answers and stores.
use coeus.Prelude.{
  false, str_eq, ap, map_error, gets, Exec, ◌≡◌, refl, ◌∙◌, String, Char, none, some, Option, find,
  pos, Outcome, ret, raise, after, final, map_err, Bool-cases, Option-cases, inl, inr, ◌⊎◌, ◌>>=◌,
}
use coeus.Domain.Types.{Uuid, Instant, Float, Vector, Question}
use coeus.Domain.Errors.{GoError, plain}
use coeus.Domain.Validate.{validate_draft}
use coeus.Domain.Validate.Drafts.{Draft, validate_draft-Draft}
use coeus.Dto.Responses.{CreateQuestionRequest}
use coeus.Storage.World.{Db, World, Io, query}
use coeus.Storage.Questions.{has_hash, find_exact, create_question}
use coeus.Storage.Questions.Added.{SameQuestions, Added, WithQuestion-same, create_question-Added}
use coeus.Storage.Questions.Views.{QuestionExpertView, find_expert}
use coeus.Storage.Questions.Views.Refetch.{Keeps-find_expert}
use coeus.Http.Guards.{Reply, Identity, passing}
use coeus.Http.Auth.{failing}
use coeus.Handlers.Responses.{Sent, invalid, trying, kept, sends, binds_create}
use coeus.Handlers.Questions.Edit.{confidence_of, QuestionBody, question_body}
use coeus.Handlers.Questions.NewRow.{
  norm_of, hash_of, authored_row, NewRow, new_row, binds_create-type,
}
use coeus.Handlers.Questions.Create.{
  Created, conflict, created, authored, embed_best_effort, store_authored, questions_create,
  labeling_valid, vector_or_none,
}

-- The embedder is a remote service, which leaves the database alone.
abbrev pub Remote : Option (String → Io Vector) → Type 0
Remote none = Unit
Remote (some embed) = (text : String) (w : World) → (final (embed text w)).db ≡ w.db

module _ (lower : Char → Char) (sha256_hex : String → String) where
  -- How a request that an expert authors a question ends
  pub data Creating (caller : Identity) (req : CreateQuestionRequest) (w : World)
      : Outcome Reply World (Sent Created) → Type 0 where
    refused : Creating caller req w (raise invalid w)
    unanswered :
        (e : GoError) (w' : World) → w'.db ≡ w.db → Creating caller req w (raise (failing e) w')
    known :
        (q : Question) (w' : World)
        → find (has_hash (hash_of lower sha256_hex req)) w.db.questions ≡ some q
        → w'.db ≡ w.db
        → Creating caller req w (ret (record { status = 409; body = conflict q.id }) w')
    broken :
        (e : GoError) (w' : World)
        → find (has_hash (hash_of lower sha256_hex req)) w.db.questions ≡ none
        → SameQuestions w.db.questions w'.db ⊎ NewRow lower sha256_hex caller req w w'.db
        → Creating caller req w (raise (failing e) w')
    accepted :
        (body : QuestionBody) (w' : World)
        → Draft req.question req.choices req.answers req.type
        → find (has_hash (hash_of lower sha256_hex req)) w.db.questions ≡ none
        → NewRow lower sha256_hex caller req w w'.db
        → Creating caller req w (ret (record { status = 201; body = created body }) w')

  module _ (caller : Identity) (req : CreateQuestionRequest) (w : World) (confidence : Float)
      (draft : Draft req.question req.choices req.answers req.type)
      (new : find (has_hash (hash_of lower sha256_hex req)) w.db.questions ≡ none)
      (typed : str_eq req.type "" ≡ false) where
    -- The re-fetch behind the row that was stored
    refetched :
        (id : Uuid) (o : Outcome GoError World QuestionExpertView)
        → NewRow lower sha256_hex caller req w (final o).db
        → Creating caller req w
            (after (kept o) (λ ev. sends 201 (created (question_body id "verified" ev))))
    refetched id (ret ev w') h = accepted _ w' draft new h
    refetched id (raise e w') h = accepted _ w' draft new h

    row :
        (embedding : Option Vector) (at : Instant) (w₁ : World)
        → SameQuestions w.db.questions w₁.db
        → (o : Outcome GoError World Uuid)
        → Added w₁.db.questions (authored_row lower sha256_hex caller req confidence embedding at) o
        → Creating caller req w (
            after (map_error failing o) (λ id. trying (find_expert id) >>= λ ev.
            sends 201 (created (question_body id "verified" ev))))
    row embedding at w₁ same (raise e w') h = broken e w' new (elim h [
      | inl s ↦ inl (s ∙ same)
      | inr (id, s) ↦ inr (
          new_row lower sha256_hex caller req w w'.db typed confidence embedding at id (
            WithQuestion-same (authored_row lower sha256_hex caller req confidence embedding at) id
              w'.db same s))
    ])
    row embedding at w₁ same (ret id w') h = refetched id (find_expert id w') (
        (Keeps-find_expert (NewRow lower sha256_hex caller req w) id).at w' (
          new_row lower sha256_hex caller req w w'.db typed confidence embedding at id (
            WithQuestion-same (authored_row lower sha256_hex caller req confidence embedding at) id
              w'.db same h)))

    -- The rest of the handler, once the embedder has answered
    abbrev stored_by : Option Vector → Exec Reply World (Sent Created)
    stored_by embedding = do
      at ← gets (λ (v : World). v.clock)
      id ← map_err failing (
          create_question (
            authored req (norm_of lower sha256_hex req) (hash_of lower sha256_hex req) confidence
              embedding at caller.claims.user_id))
      ev ← trying (find_expert id)
      sends 201 (created (question_body id "verified" ev))

    stored_by-Creating :
        (embedding : Option Vector) (w₁ : World)
        → SameQuestions w.db.questions w₁.db
        → Creating caller req w (stored_by embedding w₁)
    stored_by-Creating embedding w₁ same =
        row embedding w₁.clock w₁ same
          (create_question
            (authored req (norm_of lower sha256_hex req) (hash_of lower sha256_hex req) confidence
              embedding w₁.clock caller.claims.user_id)
            w₁)
          (create_question-Added _ w₁)

    after_embedding :
        (o : Outcome GoError World Vector)
        → (final o).db ≡ w.db
        → Creating caller req w (after (after (kept o) (λ v. passing (vector_or_none v))) stored_by)
    after_embedding (ret v w₁) same =
        stored_by-Creating (some v) w₁ (ap (λ (d : Db). d.questions) same)
    after_embedding (raise e w₁) same =
        stored_by-Creating none w₁ (ap (λ (d : Db). d.questions) same)

    store_authored-Creating :
        (embedder : Option (String → Io Vector)) (w₁ : World)
        → w₁.db ≡ w.db
        → Remote embedder
        → Creating caller req w (
            store_authored lower sha256_hex embedder caller req
              (norm_of lower sha256_hex req)
              (hash_of lower sha256_hex req)
              confidence
              w₁)
    unfolding store_authored embed_best_effort
    store_authored-Creating none w₁ same calm =
        stored_by-Creating none w₁ (ap (λ (d : Db). d.questions) same)
    store_authored-Creating (some embed) w₁ same calm =
        after_embedding (embed req.question w₁) (calm req.question w₁ ∙ same)

  -- Where the embedder leaves the database alone, a request to author a question ends in one of
  -- these ways: it is answered with 400 and changes nothing; its text has the hash of a stored
  -- question, and it is answered with 409 and that question's id and changes nothing; it is answered
  -- with 201, its draft is valid, no stored question has its hash, and the questions are as before
  -- with its own behind them, that has the request's text, choices, answers, labeling, type and
  -- explanation, is verified and bears the caller's id and a time; or the database fails, and the
  -- questions are as before or have, where none had its hash, its own behind them.
  pub questions_create-Creating :
      (embedder : Option (String → Io Vector)) (caller : Identity) (req : CreateQuestionRequest)
      (w : World)
      → Remote embedder
      → Creating caller req w (questions_create lower sha256_hex embedder caller (some req) w)
  unfolding questions_create find_exact query
  questions_create-Creating embedder caller req w calm = elim (Bool-cases (binds_create req)) [
    | inr no_fit ↦ rw no_fit refused
    | inl fit ↦ elim (Bool-cases (labeling_valid req.choice_labeling)) [
      | inr odd ↦ rw (fit, odd) refused
      | inl fine ↦
          elim (Option-cases (validate_draft req.question req.choices req.answers req.type)) [
            | inr (e, bad) ↦ rw (fit, fine, bad) refused
            | inl good ↦ elim (Option-cases (confidence_of (pos 990000) req.confidence)) [
              | inl beyond ↦ rw (fit, fine, good, beyond) refused
              | inr (confidence, within) ↦ elim (Option-cases (w.faults w.trips)) [
                | inr (e, down) ↦ rw (fit, fine, good, within, down) (unanswered (plain e) _ refl)
                | inl up ↦
                    elim (Option-cases
                      (find (has_hash (hash_of lower sha256_hex req)) w.db.questions)) [
                        | inr (q, hit) ↦ rw (fit, fine, good, within, up, hit) (known q _ hit refl)
                        | inl new ↦
                            rw (fit, fine, good, within, up, new)
                              (store_authored-Creating caller req w confidence
                                ((validate_draft-Draft _ _ _ _).0 good) new
                                (binds_create-type req fit) embedder _ refl calm)
                      ]
              ]
            ]
          ]
    ]
  ]
