-- ===== src/Handlers/Images/Queued.antt =====
-- What Upload of internal/httpapi/handlers/images.go leaves behind.
use coeus.Prelude.{
  ℕ, ◌+◌, ◌≡◌, refl, String, Char, Bool, true, false, none, some, List, [], ◌∷◌, ◌++◌, any, arith,
  Outcome, ret, raise, ◌==◌, ==_iff, Bool-cases, Option-cases, inl, inr, Option,
}
use coeus.Domain.Types.{Bytes, Session, Image, Job}
use coeus.Domain.Errors.{GoError, plain, wrap}
use coeus.Storage.World.{Db, World, query}
use coeus.Storage.Images.{create_image, insert_image}
use coeus.Storage.Jobs.{enqueue, insert_job}
use coeus.Config.{UploadConfig}
use coeus.Dto.Responses.{ImageUploadResponse}
use coeus.Http.Guards.{Reply}
use coeus.Http.Auth.{failing}
use coeus.Handlers.Responses.{Sent, invalid}
use coeus.Handlers.Images.{allowed, dimensions, upload_file, images_upload}

any-last :
    {A : Type 0} (p : A → Bool) (xs : List A) (x : A) → p x ≡ true → any p (xs ++ x ∷ []) ≡ true
any-last p [] x h = ground arith
any-last p (y ∷ ys) x h = ground (arith, any-last p ys x h)

module _ (lower : Char → Char) (detect_content_type : Bytes → String)
    (decode_config : Bytes → Option (ℕ × ℕ)) (cfg : UploadConfig) where
  abbrev image_row : Session → Bytes → World → Image
  image_row session file w = record {
    id = w.next_id;
    session_id = session.id;
    original = some file;
    enhanced = none;
    mime = detect_content_type file;
    width = (dimensions (decode_config file)).0;
    height = (dimensions (decode_config file)).1;
    verification_report = none;
    extraction_error = none;
    created_at = w.clock;
  }

  abbrev job_row : Session → World → Job
  job_row session w = record {
    id = w.next_id + 1;
    image_id = w.next_id;
    session_id = session.id;
    status = "pending";
    attempts = 0;
    last_error = "";
    queued_at = w.clock;
    started_at = none;
    finished_at = none;
  }

  abbrev pub with_image : Session → Bytes → World → Db
  with_image session file w = record w.db { images = w.db.images ++ image_row session file w ∷ [] }

  abbrev pub with_image_and_job : Session → Bytes → World → Db
  with_image_and_job session file w = record (with_image session file w) {
    jobs = w.db.jobs ++ job_row session w ∷ [];
  }

  -- How the upload of a file to a session ends
  pub data Upload (session : Session) (file : Bytes) (w : World)
      : Outcome Reply World (Sent ImageUploadResponse) → Type 0 where
    refused :
        allowed lower detect_content_type decode_config cfg (detect_content_type file) ≡ false
        → Upload session file w (raise invalid w)
    unstored :
        (e : GoError) (w' : World) → w'.db ≡ w.db → Upload session file w (raise (failing e) w')
    orphaned :
        (e : String) (w' : World)
        → w.faults (w.trips + 1) ≡ some e
        → w'.db ≡ with_image session file w
        → Upload session file w (raise (failing (wrap "enqueue job" (plain e))) w')
    queued :
        (w' : World)
        → allowed lower detect_content_type decode_config cfg (detect_content_type file) ≡ true
        → w'.db ≡ with_image_and_job session file w
        → Upload session file w (
            ret
              (record {
                status = 202;
                body = record { image_id = w.next_id; job_id = w.next_id + 1 };
              })
              w')

  -- An upload whose sniffed type is not allowed is answered with 400 and changes nothing. Another
  -- one that is answered with 202 has stored the file as an image of the session and queued one
  -- pending job for it; it fails with nothing stored, or, where the round trip that queues the job
  -- fails, with the image stored and no job.
  pub images_upload-Upload :
      (session : Session) (file : Bytes) (w : World)
      → Upload session file w
          (images_upload lower detect_content_type decode_config cfg (some session) (some file) w)
  unfolding images_upload upload_file create_image insert_image enqueue insert_job query
  images_upload-Upload session file w =
      elim (Bool-cases
        (allowed lower detect_content_type decode_config cfg (detect_content_type file))) [
          | inr off ↦ rw off (refused off)
          | inl on ↦ elim (Option-cases (w.faults w.trips)) [
            | inr (e, bad) ↦ rw (on, bad) (unstored _ _ refl)
            | inl good ↦ elim (Bool-cases (any (λ s. s.id == session.id) w.db.sessions)) [
              | inr gone ↦ rw (on, good, gone) (unstored _ _ refl)
              | inl here ↦ elim (Option-cases (w.faults (w.trips + 1))) [
                | inr (e, bad) ↦ rw (on, good, here, bad) (orphaned e _ bad refl)
                | inl fine ↦
                    rw
                      (
                        on,
                        good,
                        here,
                        fine,
                        any-last (λ (i : Image). i.id == w.next_id) w.db.images
                            (image_row session file w) ((==_iff _ _).1 refl),
                        here,
                      )
                      (queued _ on refl)
              ]
            ]
          ]
        ]
