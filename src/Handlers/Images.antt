-- ===== src/Handlers/Images.antt =====
-- internal/httpapi/handlers/images.go. The session is the one that SessionWindow has set. What
-- net/http and the image decoders answer is an argument: the file of the form within the size cap,
-- the type that is sniffed of it, and its dimensions.
pub mod Queued
use coeus.Prelude.{
  ℕ, String, Char, Bool, true, false, Option, none, some, Result, ok, err, List, [], ◌∷◌, map, any,
  find, ◌==◌, str_eq, map_runes, ◌>>=◌, ◌>>◌, map_err, guard, if◌then◌else◌,
}
use coeus.Domain.Types.{Uuid, Bytes, Session, Image}
use coeus.Domain.Errors.{GoError}
use coeus.Dto.Responses.{ImageUploadResponse, ImageResponse}
use coeus.Storage.World.{World, Io}
use coeus.Storage.Images.{create_image, list_images}
use coeus.Storage.Jobs.{enqueue, find_job_statuses_by_session}
use coeus.Http.Guards.{Reply}
use coeus.Http.Auth.{failing}
use coeus.Handlers.Responses.{Sent, Handler, trying, sends, refuse, invalid}
use coeus.Config.{UploadConfig, allowed_mimes_map}

abbrev session_missing : Reply
session_missing = record {
  status = 500;
  error = record { code = "internal"; message = "session missing" };
}

-- An error of the decoder leaves both dimensions 0.
abbrev pub dimensions : Option (ℕ × ℕ) → ℕ × ℕ
dimensions none = (0, 0)
dimensions (some size) = size

module _ (lower : Char → Char) (detect_content_type : Bytes → String)
    (decode_config : Bytes → Option (ℕ × ℕ)) (cfg : UploadConfig) where
  abbrev pub allowed : String → Bool
  allowed mime = allowed_mimes_map lower cfg (map_runes lower mime)

  -- The part behind the reading of the form
  unfoldable pub upload_file : Session → Bytes → Handler ImageUploadResponse
  unfolding allowed_mimes_map
  upload_file session file = do
    guard (allowed (detect_content_type file)) invalid
    let size = dimensions (decode_config file)
    img_id ← map_err failing (create_image session.id file (detect_content_type file) size.0 size.1)
    job_id ← map_err failing (enqueue img_id session.id)
    sends 202 (record { image_id = img_id; job_id = job_id })

  unfoldable pub images_upload : Option Session → Option Bytes → Handler ImageUploadResponse
  unfolding upload_file
  images_upload none form = refuse session_missing
  images_upload (some session) none = refuse invalid
  images_upload (some session) (some file) = upload_file session file

-- statuses[img.ID], which is "" for a key that is missing
unfoldable pub status_of : Uuid → List (Uuid × String) → String
status_of id [] = ""
status_of id ((key, status) ∷ statuses) = if key == id then status else status_of id statuses

-- An error of the query leaves an empty map.
abbrev pub statuses_or_none : Result GoError (List (Uuid × String)) → List (Uuid × String)
statuses_or_none (ok statuses) = statuses
statuses_or_none (err e) = []

abbrev pub known_or_unknown : String → String
known_or_unknown s = if str_eq s "" then "unknown" else s

unfoldable pub image_response : List (Uuid × String) → Image → ImageResponse
unfolding status_of
image_response statuses img = record {
  id = img.id;
  mime = img.mime;
  width = img.width;
  height = img.height;
  job_status = known_or_unknown (status_of img.id statuses);
  created_at = img.created_at;
}

unfoldable pub images_list : Option Session → Handler (List ImageResponse)
unfolding image_response
images_list none = refuse session_missing
images_list (some session) = do
  images ← map_err failing (list_images session.id)
  statuses ← trying (find_job_statuses_by_session session.id)
  sends 200 (map (image_response (statuses_or_none statuses)) images)
