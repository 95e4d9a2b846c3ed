-- ===== src/Storage/Spends/Calls.antt =====
-- The calls of the repositories leave the looks at the context as they are.
use coeus.Prelude.{ℕ, ℤ, String, Option, none, some, List, [], ◌∷◌, map_err}
use coeus.Domain.Types.{Uuid, Float, Vector, Image, Job, Question, Bytes}
use coeus.Domain.Errors.{wrap}
use coeus.Storage.Spends.{Spends, spends_rules, Spends-then, Spends-pure}
use coeus.Storage.Images.{
  find_image, one_image, update_enhanced, update_verification_report, update_extraction_error,
}
use coeus.Storage.Jobs.{claim, take_job, claim_commit, complete, fail}
use coeus.Storage.Questions.{
  create_question, insert_question, row_check, link_tag, link_tags, link_to_session, insert_link,
  find_exact, find_semantic, update_from_verification,
}

module _ (L : Option ℕ → Type 0) where
  Spends-take_job : (j : Option Job) → Spends L (take_job j)
  Spends-take_job none = search spends_rules
  Spends-take_job (some j) = search spends_rules depth 9

  Spends-claim_commit : (j : Option Job) → Spends L (claim_commit j)
  unfolding claim_commit
  Spends-claim_commit none = search spends_rules
  Spends-claim_commit (some j) = search spends_rules depth 9

  pub Spends-claim : Spends L claim
  unfolding claim
  Spends-claim = search (spends_rules, Spends-take_job, Spends-claim_commit) depth 12

  pub Spends-complete : (id : Uuid) → Spends L (complete id)
  unfolding complete
  Spends-complete id = search spends_rules depth 9

  pub Spends-fail : (id : Uuid) (msg : String) → Spends L (fail id msg)
  unfolding fail
  Spends-fail id msg = search spends_rules depth 9

  Spends-one_image : (i : Option Image) → Spends L (one_image i)
  Spends-one_image none = search spends_rules
  Spends-one_image (some i) = Spends-pure i

  pub Spends-find_image : (id : Uuid) → Spends L (find_image id)
  unfolding find_image
  Spends-find_image id = search (spends_rules, Spends-one_image) depth 9

  pub Spends-update_enhanced : (id : Uuid) (b : Bytes) → Spends L (update_enhanced id b)
  unfolding update_enhanced
  Spends-update_enhanced id b = search spends_rules depth 12

  pub Spends-update_verification_report :
      (id : Uuid) (r : String) → Spends L (update_verification_report id r)
  unfolding update_verification_report
  Spends-update_verification_report id r = search spends_rules depth 12

  pub Spends-update_extraction_error :
      (id : Uuid) (r : String) → Spends L (update_extraction_error id r)
  unfolding update_extraction_error
  Spends-update_extraction_error id r = search spends_rules depth 12

  Spends-row_check : (q : Question) → Spends L (row_check q)
  unfolding row_check
  Spends-row_check q = search spends_rules depth 20

  Spends-insert_question : (q : Question) → Spends L (insert_question q)
  unfolding insert_question
  Spends-insert_question q = search (spends_rules, Spends-row_check) depth 12

  Spends-link_tags : (id : Uuid) (names : List String) → Spends L (link_tags id names)
  unfolding link_tags link_tag
  Spends-link_tags id [] = Spends-pure tt
  Spends-link_tags id (name ∷ names) =
      Spends-then (map_err (wrap "link tag") (link_tag id name)) (link_tags id names)
        (search spends_rules depth 12) (Spends-link_tags id names)

  pub Spends-create_question : (q : Question) → Spends L (create_question q)
  unfolding create_question
  Spends-create_question q =
      search (spends_rules, Spends-insert_question, Spends-link_tags) depth 12

  pub Spends-link_to_session :
      (s i q : Uuid) (n : ℤ) (c : Float) → Spends L (link_to_session s i q n c)
  unfolding link_to_session insert_link
  Spends-link_to_session s i q n c = search spends_rules depth 12

  pub Spends-find_exact : (h : String) → Spends L (find_exact h)
  unfolding find_exact
  Spends-find_exact h = search spends_rules depth 6

  pub Spends-find_semantic :
      (d : Vector → Vector → Float) (v : Vector) (t : Float) → Spends L (find_semantic d v t)
  unfolding find_semantic
  Spends-find_semantic d v t = search spends_rules depth 6

  pub Spends-update_from_verification :
      (id : Uuid) (answers : List String) (c : Float) (x : String)
      → Spends L (update_from_verification id answers c x)
  unfolding update_from_verification
  Spends-update_from_verification id answers c x = search spends_rules depth 12
