-- ===== src/Ai/Embedder.antt =====
-- internal/ai/embedder/embedder.go. `create_embeddings` is the request, `to_float32` the conversion
-- of one number. A dimension of 0 is not checked.
pub mod Aligned
use coeus.Prelude.{
  ℕ, zero, suc, ◌+◌, String, concat, Bool, true, false, not, ◌&&◌, ◌||◌, Option, none, some, Result,
  ok, err, List, [], ◌∷◌, map, length, ℤ, pos, negsuc, ltb, leb, ◌==◌, is_empty, itoa, ◌>>=◌, ◌>>◌,
  map_err, guard, lift, if◌then◌else◌,
}
use coeus.Domain.Types.{Float, Vector}
use coeus.Domain.Errors.{GoError, plain, wrap}
use coeus.Storage.World.{World, Io, pure, throw}

-- One element of the response's data
pub record Embedding : Type 0 where
  pub index : ℤ
  pub embedding : Vector

abbrev mismatch : String → ℕ → ℕ → GoError
mismatch context got want = plain (
    concat context
      (concat ": dimension mismatch: got " (concat (itoa got) (concat ", want " (itoa want)))))

abbrev fits : ℕ → Vector → Bool
fits dim v = not (ltb 0 dim && not (length v == dim))

-- out[i] = vec
unfoldable pub set_at : ℕ → Vector → List Vector → List Vector
set_at i vec [] = []
set_at zero vec (v ∷ vs) = vec ∷ vs
set_at (suc i) vec (v ∷ vs) = v ∷ set_at i vec vs

-- make([][]float32, n): the vectors are nil
unfoldable pub blank : List String → List Vector
blank [] = []
blank (t ∷ ts) = [] ∷ blank ts

abbrev out_of_range : ℤ → GoError
out_of_range (pos i) =
    plain (concat "embed batch: response index " (concat (itoa i) " out of range"))
out_of_range (negsuc i) =
    plain (concat "embed batch: response index -" (concat (itoa (i + 1)) " out of range"))

-- d.Index < 0 || d.Index >= len(texts)
abbrev pub index_below : ℕ → ℤ → Option ℕ
index_below n (pos i) = if ltb i n then some i else none
index_below n (negsuc i) = none

module _ (to_float32 : Float → Float) (dim : ℕ) where
  abbrev pub first_vector : List Embedding → Io Vector
  first_vector [] = throw (plain "embed: empty response data")
  first_vector (d ∷ more) = do
    guard (fits dim (map to_float32 d.embedding)) (mismatch "embed" (length d.embedding) dim)
    pure (map to_float32 d.embedding)

  unfoldable pub embed : (String → Io (List Embedding)) → String → Io Vector
  embed create_embeddings text = do
    guard (not (is_empty text)) (plain "embed: empty input")
    items ← map_err (wrap "embed") (create_embeddings text)
    first_vector items

  abbrev placed :
      ℤ
      → Option ℕ
      → Vector
      → List Vector
      → (List Vector → Result GoError (List Vector))
      → Result GoError (List Vector)
  placed index none vec out more = err (out_of_range index)
  placed index (some i) vec out more =
      if fits dim vec
      then more (set_at i vec out)
      else err (mismatch "embed batch" (length vec) dim)

  -- The loop over the response
  unfoldable pub place_all : List Embedding → List Vector → Result GoError (List Vector)
  unfolding set_at
  place_all [] out = ok out
  place_all (d ∷ ds) out =
      placed d.index (index_below (length out) d.index) (map to_float32 d.embedding) out
        (place_all ds)

  unfoldable pub embed_batch : (List String → Io (List Embedding)) → List String → Io (List Vector)
  unfolding place_all blank
  embed_batch create_embeddings texts = do
    guard (not (length texts == 0)) (plain "embed batch: empty input")
    items ← map_err (wrap "embed batch") (create_embeddings texts)
    guard (length items == length texts) (
        plain (
          concat "embed batch: got " (
            concat (itoa (length items))
              (concat " embeddings for " (concat (itoa (length texts)) " inputs")))))
    lift (place_all items (blank texts))
