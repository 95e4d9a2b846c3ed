-- ===== src/Ai/Enhancer.antt =====
-- internal/ai/enhancer/enhancer.go, and mimeForExt of cmd/enhance-local/main.go. The operations of
-- libvips are arguments; an image is what its decoder gives.
pub mod Released
use coeus.Prelude.{
  ℕ, ◌≡◌, String, Char, concat, Bool, true, ◌||◌, Result, ok, err, str_eq, map_runes, lift, map_err,
  modify, if◌then◌else◌, ℤ, pos, negsuc, ◌>>=◌, ◌>>◌, Exec, final,
}
use coeus.Domain.Types.{Bytes, Float}
use coeus.Domain.Errors.{GoError, plain, wrap}
use coeus.Runtime.{
  Runtime, Native, Still, still_rules, Still-deferring, deferring, image_opened, image_closed,
  image-closed,
}

pub record Vips (V : Type 0) : Type 0 where
  pub decode : Bytes → Result GoError V
  pub auto_rotate : V → Result GoError V
  pub thumbnail_with_size : ℕ → ℕ → V → Result GoError V
  pub modulate : Float → Float → Float → V → Result GoError V
  pub extract_band : ℕ → ℕ → V → Result GoError V
  pub linear1 : Float → Float → V → Result GoError V
  pub sharpen : Float → Float → Float → V → Result GoError V
  pub export_jpeg : ℕ → V → Result GoError Bytes
  pub export_png : ℕ → V → Result GoError Bytes
  pub export_webp : ℕ → V → Result GoError Bytes
  pub quoted : String → String

module _ {V : Type 0} (vips : Vips V) where
  -- The switch over the MIME
  unfoldable pub export_as : String → V → Result GoError Bytes
  export_as mime img =
      if str_eq mime "image/jpeg"
      then vips.export_jpeg 40 img
      else if str_eq mime "image/png"
      then vips.export_png 7 img
      else if str_eq mime "image/webp"
      then vips.export_webp 40 img
      else err (plain (concat "enhance: unsupported MIME " (vips.quoted mime)))

  -- From the decoded image on
  unfoldable pub adjust : V → String → Native Bytes
  unfolding export_as
  adjust img mime = do
    a ← map_err (wrap "enhance: auto-rotate") (lift (vips.auto_rotate img))
    b ← map_err (wrap "enhance: resize") (lift (vips.thumbnail_with_size 1000 1000 a))
    c ← map_err (wrap "enhance: modulate") (lift (vips.modulate (pos 1250000) (pos 0) (pos 0) b))
    d ← map_err (wrap "enhance: extract band") (lift (vips.extract_band 0 1 c))
    e ← map_err (wrap "enhance: contrast") (lift (vips.linear1 (pos 2000000) (negsuc 249999999) d))
    f ←
        map_err (wrap "enhance: sharpen")
          (lift (vips.sharpen (pos 1250000) (pos 2000000) (pos 2500000) e))
    lift (export_as mime f)

  -- `alive` is ctx.Err().
  unfoldable pub enhance : Result GoError (Unit {0}) → Bytes → String → Native Bytes
  unfolding adjust
  enhance alive original mime = do
    map_err (wrap "enhance") (lift alive)
    img ← map_err (wrap "enhance: decode") (lift (vips.decode original))
    modify image_opened
    deferring image_closed (adjust img mime)

  Still-adjust : (img : V) (mime : String) → Still (adjust img mime)
  unfolding adjust
  Still-adjust img mime = search still_rules depth 20

  pub Still-enhance :
      (alive : Result GoError (Unit {0})) (original : Bytes) (mime : String)
      → Still (enhance alive original mime)
  unfolding enhance
  Still-enhance alive original mime = search (still_rules, opened) depth 9
    where
      opened : (img : V) → Still (modify image_opened >> deferring image_closed (adjust img mime))
      opened img =
          Still-deferring image_opened image_closed (adjust img mime) image-closed
            (Still-adjust img mime)

-- The switch over the extension; "" is none that is supported.
unfoldable pub mime_for_ext : (Char → Char) → String → String
mime_for_ext lower ext =
    let e = map_runes lower ext in
    if str_eq e ".jpg" || str_eq e ".jpeg"
    then "image/jpeg"
    else if str_eq e ".png"
    then "image/png"
    else if str_eq e ".webp"
    then "image/webp"
    else ""
