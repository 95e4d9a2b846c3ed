-- ===== src/Ai/Files.antt =====
-- internal/ai/extractor/files.go: the upload and the deletion of an image at the vision service. The
-- exchange over HTTP is an argument.
use coeus.Prelude.{
  ℕ, String, Char, concat, Bool, not, ◌||◌, Result, leb, ltb, itoa, str_eq, map_runes, trim_space,
  ◌>>=◌, ◌>>◌, map_err, guard, lift, if◌then◌else◌,
}
use coeus.Domain.Types.{Bytes}
use coeus.Domain.Errors.{GoError, plain, wrap}
use coeus.Storage.World.{Io, pure}

unfoldable pub filename_for_mime : (Char → Char) → String → String
filename_for_mime lower mime =
    let m = map_runes lower (trim_space mime) in
    if str_eq m "image/jpeg" || str_eq m "image/jpg"
    then "image.jpg"
    else if str_eq m "image/png"
    then "image.png"
    else if str_eq m "image/webp"
    then "image.webp"
    else "image.bin"

-- `excerpt` is the body up to 4096 bytes, `decoded` the field id of its JSON.
pub record HttpResponse : Type 0 where
  pub status_code : ℕ
  pub excerpt : String
  pub decoded : Result GoError String

abbrev successful : ℕ → Bool
successful status = not (ltb status 200 || leb 300 status)

abbrev unexpected_status : HttpResponse → GoError
unexpected_status resp = plain (
    concat "upload: unexpected status "
      (concat (itoa resp.status_code) (concat ": " (trim_space resp.excerpt))))

-- `post url filename image` is the multipart request.
unfoldable pub upload_image :
    (Char → Char)
    → (String → String → Bytes → Io HttpResponse)
    → String
    → Bytes
    → String
    → Io String
unfolding filename_for_mime
upload_image lower post base_url image mime = do
  resp ←
      map_err (wrap "upload") (post (concat base_url "/files") (filename_for_mime lower mime) image)
  guard (successful resp.status_code) (unexpected_status resp)
  id ← map_err (wrap "upload: decode response") (lift resp.decoded)
  guard (not (str_eq id "")) (plain "upload: empty file id in response")
  pure id

unfoldable pub delete_file : (String → Io ℕ) → String → String → Io (Unit {0})
delete_file send base_url file_id = do
  status ←
      map_err (wrap (concat "delete file " file_id))
        (send (concat base_url (concat "/files/" file_id)))
  guard (successful status)
      (plain (concat "delete file " (concat file_id (concat ": unexpected status " (itoa status)))))
