-- ===== src/Storage/Questions/Expert/Bytes.antt =====
-- Which images UpdateByExpert of internal/storage/postgres/question_repo.go may clean.
use coeus.Prelude.{
  ℕ, zero, suc, ◌<◌, ◌≡◌, String, Bool, false, some, List, [], ◌∷◌, arith, get_elem?, update, final,
  Option-cases, ◌+◌, Bool-cases, inl, inr, ◌⊎◌, ◌>>=◌, ◌>>◌, map_err, guard, ◌==◌, ==_iff, Outcome,
  ret, raise, after,
}
use coeus.Domain.Types.{Uuid, Instant, Image, QuestionUpdate}
use coeus.Domain.Errors.{GoError, wrap, domain, err_not_found}
use coeus.Storage.World.{Db, World, Io, pure, query, writing, transaction, rollback, begin}
use coeus.Storage.Keeps.{Keeps, keeps_rules, Keeps-writing, Keeps-then}
use coeus.Storage.Images.{with_images, is_image, clean}
use coeus.Storage.Questions.{with_questions, is_question, link_tag, link_tags, add_tag}
use coeus.Storage.Questions.Import.{drop_tags}
use coeus.Storage.Questions.Expert.{
  edit, edit_row, edit_known, unresolved, update_by_expert, cleanup_image_bytes, clean_images,
  clean_image,
}

get_elem?-update :
    (p : Image → Bool) (f : Image → Image) (n : ℕ) (is : List Image) (i : Image)
    → get_elem? is n ≡ some i
    → p i ≡ false
    → get_elem? (update p f is) n ≡ some i
get_elem?-update p f n [] i e idle = e
get_elem?-update p f zero (k ∷ is) i e idle = let found : k ≡ i = ground arith in ground arith
get_elem?-update p f (suc n) (k ∷ is) i e idle = get_elem?-update p f n is i e idle

-- A round of the cleaning writes only where no question of the image is unresolved.
round-db :
    (i : Uuid) (w : World)
    → ((final (clean_image i w)).db ≡ w.db)
      ⊎ ((unresolved i w.db ≡ 0)
          × ((final (clean_image i w)).db ≡ with_images (update (is_image i) clean) w.db))
unfolding query
round-db i w = elim (Bool-cases (unresolved i w.db == 0)) [
  | inl e ↦ elim (Option-cases (w.faults w.trips)) [
    | inr (x, bad) ↦ inl (ground arith)
    | inl good ↦ elim (Option-cases (w.faults (w.trips + 1))) [
      | inr (x, bad) ↦ inl (ground arith)
      | inl fine ↦ inr (ground arith, ground arith)
    ]
  ]
  | inr e ↦ inl (ground arith)
]

module _ (n : ℕ) (img : Image) where
  abbrev Intact : Db → Type 0
  Intact db = get_elem? db.images n ≡ some img

  abbrev Spared : Db → Type 0
  Spared db = 0 < unresolved img.id db → Intact db

  cleaned-Spared :
      (i : Uuid) (db : Db)
      → unresolved i db ≡ 0
      → Spared db
      → Spared (with_images (update (is_image i) clean) db)
  unfolding unresolved
  cleaned-Spared i db none_open h more = elim (Bool-cases (img.id == i)) [
    | inl same ↦ let one : img.id ≡ i = (==_iff img.id i).0 same in absurd (ground arith)
    | inr other ↦ get_elem?-update (is_image i) clean n db.images img (h more) other
  ]

  spared :
      (i : Uuid) (w : World)
      → Spared w.db
      → ((final (clean_image i w)).db ≡ w.db)
        ⊎ ((unresolved i w.db ≡ 0)
            × ((final (clean_image i w)).db ≡ with_images (update (is_image i) clean) w.db))
      → Spared (final (clean_image i w)).db
  spared i w h (inl same) = rw same h
  spared i w h (inr (none_open, cleaned)) = rw cleaned (cleaned-Spared i w.db none_open h)

  Keeps-clean_image : (i : Uuid) → Keeps Spared (clean_image i)
  Keeps-clean_image i = record { at = λ w h. spared i w h (round-db i w) }

  Keeps-clean_images : (is : List Uuid) → Keeps Spared (clean_images is)
  unfolding clean_images
  Keeps-clean_images [] = search keeps_rules
  Keeps-clean_images (i ∷ is) =
      Keeps-then (clean_image i) (clean_images is) (Keeps-clean_image i) (Keeps-clean_images is)

  Keeps-cleanup : (id : Uuid) → Keeps Spared (cleanup_image_bytes id)
  unfolding cleanup_image_bytes
  Keeps-cleanup id = search (keeps_rules, Keeps-clean_images) depth 12

  -- Statements on other tables
  edits :
      (id : Uuid) (upd : QuestionUpdate) (expert_id : Uuid) (at : Instant)
      → Keeps Intact (writing (with_questions (update (is_question id) (edit at upd expert_id))))
  edits id upd expert_id at =
      Keeps-writing (with_questions (update (is_question id) (edit at upd expert_id))) λ db h. h

  tags : (id : Uuid) (name : String) → Keeps Intact (writing (add_tag id name))
  tags id name = Keeps-writing (add_tag id name) λ db h. ground arith

  drops : (id : Uuid) → Keeps Intact (writing (drop_tags id))
  drops id = Keeps-writing (drop_tags id) λ db h. h

  Keeps-edit_row :
      (id : Uuid) (upd : QuestionUpdate) (expert_id : Uuid)
      → Keeps Intact (edit_row id upd expert_id)
  unfolding edit_row edit_known
  Keeps-edit_row id upd expert_id = search (keeps_rules, edits) depth 12

  Keeps-link_tags : (id : Uuid) (names : List String) → Keeps Intact (link_tags id names)
  unfolding link_tags link_tag
  Keeps-link_tags id [] = search keeps_rules
  Keeps-link_tags id (name ∷ names) =
      Keeps-then (map_err (wrap "link tag") (link_tag id name)) (link_tags id names)
        (search (keeps_rules, tags) depth 12) (Keeps-link_tags id names)

  -- A run that keeps the image as it is up to the cleaning
  record Leads {A : Type 0} (m : Io A) : Type 0 where
    pub at : (w : World) → Intact w.db → Spared (final (m w)).db

  module _ {A : Type 0} where
    Spared-rollback :
        (db : Db) (o : Outcome GoError World A)
        → Intact db
        → Spared (final o).db
        → Spared (final (rollback db o)).db
    Spared-rollback db (ret a w) h k = k
    Spared-rollback db (raise e w) h k = λ _. h

    Leads-transaction : (m : Io A) → Leads m → Leads (transaction m)
    unfolding transaction
    Leads-transaction m k = record { at = λ w h. Spared-rollback w.db (m w) h (k.at w h) }

    Leads-spares : (m : Io A) → Keeps Spared m → Leads m
    Leads-spares m k = record { at = λ w h. k.at w (λ _. h) }

  module _ {A B : Type 0} where
    Spared-after :
        (o : Outcome GoError World A) (f : A → Io B)
        → Intact (final o).db
        → ((a : A) → Leads (f a))
        → Spared (final (after o f)).db
    Spared-after (ret a w) f h k = (k a).at w h
    Spared-after (raise e w) f h k = λ _. h

    Leads-bind :
        (m : Io A) (f : A → Io B) → Keeps Intact m → ((a : A) → Leads (f a)) → Leads (m >>= f)
    Leads-bind m f k go = record { at = λ w h. Spared-after (m w) f (k.at w h) go }

    Leads-then : (m : Io A) (n : Io B) → Keeps Intact m → Leads n → Leads (m >> n)
    Leads-then m n k go = Leads-bind m (λ _. n) k (λ _. go)

  module _ (id : Uuid) (upd : QuestionUpdate) (expert_id : Uuid) where
    abbrev cleaning : Io (Unit {0})
    cleaning = do cleanup_image_bytes id; map_err (wrap "commit update by expert") (query (pure tt))

    Leads-cleaning : Leads cleaning
    Leads-cleaning = Leads-spares cleaning (search (keeps_rules, Keeps-cleanup) depth 9)

    abbrev retagging : Io (Unit {0})
    retagging = do
      map_err (wrap "clear tags") (query (writing (drop_tags id)))
      link_tags id upd.tags
      cleaning

    Leads-retagging : Leads retagging
    Leads-retagging =
        Leads-then (map_err (wrap "clear tags") (query (writing (drop_tags id))))
          (do link_tags id upd.tags; cleaning) (search (keeps_rules, drops) depth 9)
          (Leads-then (link_tags id upd.tags) cleaning (Keeps-link_tags id upd.tags) Leads-cleaning)

    Leads-update_by_expert : Leads (update_by_expert id upd expert_id)
    unfolding update_by_expert
    Leads-update_by_expert = Leads-transaction _ (
        Leads-then (map_err (wrap "begin update by expert") begin) _ (search keeps_rules) (
          Leads-bind (map_err (wrap "update by expert") (query (edit_row id upd expert_id))) _
            (search (keeps_rules, Keeps-edit_row) depth 9)
            λ hit.
              Leads-then (guard hit (wrap "update by expert" (domain err_not_found))) retagging
                (search keeps_rules) Leads-retagging))

-- Where questions of an image are unresolved after an expert's edit, the image is as it was before
-- the edit, bytes included, whether the edit succeeds, is refused or meets a failing database.
pub update_by_expert-Spared :
    (id : Uuid) (upd : QuestionUpdate) (expert_id : Uuid) (w : World) (n : ℕ) (img : Image)
    → get_elem? w.db.images n ≡ some img
    → 0 < unresolved img.id (final (update_by_expert id upd expert_id w)).db
    → get_elem? (final (update_by_expert id upd expert_id w)).db.images n ≡ some img
update_by_expert-Spared id upd expert_id w n img h =
    (Leads-update_by_expert n img id upd expert_id).at w h
