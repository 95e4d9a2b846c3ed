-- ===== src/Storage/Images.antt =====
-- internal/storage/postgres/image_repo.go over the images table, in the order of insertion.
use coeus.Prelude.{
  ℕ, String, Bool, Option, none, some, List, [], ◌∷◌, ◌++◌, ◌==◌, any, count, find, select, update,
  if◌then◌else◌, ◌>>=◌, ◌>>◌, map_err, guard,
}
use coeus.Domain.Types.{Uuid, Bytes, Image}
use coeus.Domain.Errors.{domain, no_rows, pg, wrap, err_not_found, is_no_rows}
use coeus.Storage.World.{Db, Io, pure, throw, query, reading, writing, fresh_id, now}

abbrev pub with_images : (List Image → List Image) → Db → Db
with_images f db = record db { images = f db.images }

abbrev pub is_image : Uuid → Image → Bool
is_image id i = i.id == id

unfoldable pub insert_image : Uuid → Bytes → String → ℕ → ℕ → Io Uuid
insert_image session_id original mime width height = do
  known ← reading (λ db. any (λ s. s.id == session_id) db.sessions)
  guard known (pg "23503" "violates foreign key constraint")
  id ← fresh_id
  at ← now
  let i : Image = record {
    id = id;
    session_id = session_id;
    original = some original;
    enhanced = none;
    mime = mime;
    width = width;
    height = height;
    verification_report = none;
    extraction_error = none;
    created_at = at;
  }
  writing (with_images (λ is. is ++ i ∷ []))
  pure id

unfoldable pub create_image : Uuid → Bytes → String → ℕ → ℕ → Io Uuid
unfolding insert_image
create_image session_id original mime width height =
    map_err (wrap "create image") (query (insert_image session_id original mime width height))

abbrev pub one_image : Option Image → Io Image
one_image none = throw no_rows
one_image (some i) = pure i

unfoldable pub find_image : Uuid → Io Image
find_image id =
    map_err
      (λ e. if is_no_rows e then wrap "find image" (domain err_not_found) else wrap "find image" e)
      (query (do row ← reading (λ db. find (is_image id) db.images); one_image row))

unfoldable pub list_images : Uuid → Io (List Image)
list_images session_id =
    map_err (wrap "list images")
      (query (reading (λ db. select (λ i. i.session_id == session_id) db.images)))

-- The five UPDATEs of one row, each with its test of RowsAffected.
abbrev update_image : String → Uuid → (Image → Image) → Io (Unit {0})
update_image context id f = do
  hit ← map_err (wrap context) (
      query (do
        hit ← reading (λ db. any (is_image id) db.images)
        writing (with_images (update (is_image id) f))
        pure hit))
  guard hit (wrap context (domain err_not_found))

unfoldable pub update_enhanced : Uuid → Bytes → Io (Unit {0})
update_enhanced id enhanced =
    update_image "update enhanced" id (λ i. record i { enhanced = some enhanced })

unfoldable pub update_verification_report : Uuid → String → Io (Unit {0})
update_verification_report id report =
    update_image "update verification report" id
      (λ i. record i { verification_report = some report })

unfoldable pub update_extraction_error : Uuid → String → Io (Unit {0})
update_extraction_error id err_json =
    update_image "update extraction error" id (λ i. record i { extraction_error = some err_json })

abbrev pub clean : Image → Image
clean i = record i { original = none; enhanced = none }

unfoldable pub clean_bytes : Uuid → Io (Unit {0})
clean_bytes id = update_image "clean image bytes" id clean

unfoldable pub count_by_session : Uuid → Io ℕ
count_by_session session_id =
    map_err (wrap "count images by session")
      (query (reading (λ db. count (λ i. i.session_id == session_id) db.images)))
