-- ===== src/Handlers/Questions/NewRow.antt =====
-- The row that Create of internal/httpapi/handlers/questions.go stores.
use coeus.Prelude.{
  arith, ◌≢◌, ◌++◌, [], ◌∷◌, true, false, ◌||◌, str_eq, eq_iff, apart-str_eq, subst, ◌≡◌, refl,
  String, Char, some, Option, Bool-cases, inl, inr,
}
use coeus.Domain.Types.{Uuid, Instant, Float, Vector, Question}
use coeus.Domain.Normalize.{normalize_question, hash_question}
use coeus.Dto.Responses.{CreateQuestionRequest}
use coeus.Storage.World.{Db, World}
use coeus.Storage.Questions.{stored, with_type}
use coeus.Storage.Questions.Added.{WithQuestion}
use coeus.Http.Guards.{Identity}
use coeus.Handlers.Responses.{binds_create}
use coeus.Handlers.Questions.Create.{authored}

pub binds_create-type :
    (req : CreateQuestionRequest) → binds_create req ≡ true → str_eq req.type "" ≡ false
unfolding binds_create
binds_create-type req fit = elim (Bool-cases (str_eq req.type "")) [
  | inr given ↦ given
  | inl empty ↦
      let kind : (str_eq req.type "multiple_choice" || str_eq req.type "free_response") ≡ true =
        ground arith in
      let impossible : false ≡ true =
        subst (λ t. (str_eq t "multiple_choice" || str_eq t "free_response") ≡ true)
          ((eq_iff req.type "").0 empty) kind in
      absurd (ground arith)
]

module _ (lower : Char → Char) (sha256_hex : String → String) where
  abbrev pub norm_of : CreateQuestionRequest → String
  norm_of req = normalize_question lower req.question

  abbrev pub hash_of : CreateQuestionRequest → String
  hash_of req = hash_question sha256_hex (norm_of req)

  abbrev pub authored_row :
      Identity → CreateQuestionRequest → Float → Option Vector → Instant → Question
  authored_row caller req confidence embedding at =
      with_type
        (authored req (norm_of req) (hash_of req) confidence embedding at caller.claims.user_id)

  -- The row of a request that a caller has authored
  pub record IsAuthored (caller : Identity) (req : CreateQuestionRequest) (q : Question)
      : Type 0 where
    pub text : q.text ≡ req.question
    pub norm : q.text_norm ≡ norm_of req
    pub hash : q.text_hash ≡ hash_of req
    pub choices : q.choices ≡ req.choices
    pub answers : q.answers ≡ req.answers
    pub labeling : req.choice_labeling ≢ "" → q.choice_labeling ≡ req.choice_labeling
    pub lettered : req.choice_labeling ≡ "" → q.choice_labeling ≡ "letter"
    pub type : q.type ≡ req.type
    pub explanation : q.explanation ≡ req.explanation
    pub status : q.status ≡ "verified"
    pub author : q.verified_by ≡ some caller.claims.user_id
    pub at : Instant
    pub time : q.verified_at ≡ some at

  -- The questions as before, with that row behind them
  abbrev pub NewRow : Identity → CreateQuestionRequest → World → Db → Type 0
  NewRow caller req w db =
      (q : Question) × IsAuthored caller req q × (db.questions ≡ w.db.questions ++ q ∷ [])

  pub new_row :
      (caller : Identity) (req : CreateQuestionRequest) (w : World) (db : Db)
      → str_eq req.type "" ≡ false
      → (confidence : Float) (embedding : Option Vector) (at : Instant) (id : Uuid)
      → WithQuestion w.db.questions (authored_row caller req confidence embedding at) id db
      → NewRow caller req w db
  unfolding authored
  new_row caller req w db typed confidence embedding at id h = (
    stored id (authored_row caller req confidence embedding at),
    record {
      text = refl;
      norm = refl;
      hash = refl;
      choices = refl;
      answers = refl;
      labeling = λ given. rw (apart-str_eq req.choice_labeling "" given) refl;
      lettered = λ empty. rw empty refl;
      type = rw typed refl;
      explanation = refl;
      status = refl;
      author = refl;
      at = at;
      time = refl;
    },
    h,
  )
