-- ===== src/Importer/Service/Embedded.antt =====
-- The embeddings that embedAll of internal/importer/importer.go gives the rows.
use coeus.Prelude.{
  true, ℕ, zero, suc, ◌≤◌, ◌≡◌, refl, sym, ap, ◌∙◌, String, Option, none, some, Result, ok, List,
  [], ◌∷◌, ◌++◌, map, map-append, take-drop, length-drop, length, take, drop, arith, Always,
  Always-after, settle, Outcome, ret, raise, ◌==◌, ==_iff,
}
use coeus.Domain.Types.{Vector}
use coeus.Domain.Errors.{GoError}
use coeus.Storage.World.{World, Io}
use coeus.Importer.Service.{
  ValidRow, EmbedBatch, assign, texts, embedded, join_rows, embed_chunks, embed_chunk_size,
  set_embedding, embed_all,
}

module _ (f : String → Vector) where
  abbrev present : Vector → Option Vector
  present [] = none
  present (x ∷ xs) = some (x ∷ xs)

  -- A row with the vector of its own text
  abbrev pub with_vector : ValidRow → ValidRow
  with_vector vr = record { row = vr.row; q = record vr.q { embedding = present (f vr.q.text) } }

  set_present :
      (vr : ValidRow) (v : Vector)
      → set_embedding vr v ≡ record { row = vr.row; q = record vr.q { embedding = present v } }
  set_present vr [] = refl
  set_present vr (x ∷ xs) = refl

  assign-texts : (vrs : List ValidRow) → assign vrs (map f (texts vrs)) ≡ map with_vector vrs
  unfolding assign
  assign-texts [] = refl
  assign-texts (vr ∷ vrs) = rw (set_present vr (f vr.q.text), assign-texts vrs) refl

  length-texts : (vrs : List ValidRow) → length (map f (texts vrs)) ≡ length vrs
  length-texts [] = refl
  length-texts (vr ∷ vrs) = ap suc (length-texts vrs)

  chunk_embedded :
      (chunk : List ValidRow)
      → embedded chunk (ok (map f (texts chunk))) ≡ some (map with_vector chunk)
  chunk_embedded chunk =
      let fits : (length (map f (texts chunk)) == length chunk) ≡ true =
        (==_iff _ _).1 (length-texts chunk) in
      rw (fits, assign-texts chunk) refl

  abbrev Answers : List String → Result GoError (List Vector) → World → Type 0
  Answers ts r _ = r ≡ ok (map f ts)

  abbrev Embedded : List ValidRow → List ValidRow → World → Type 0
  Embedded rows out _ = out ≡ map with_vector rows

  answered :
      (ts : List String) (o : Outcome GoError World (List Vector))
      → Always (λ vecs _. vecs ≡ map f ts) o
      → Always (Answers ts) (settle o)
  answered ts (ret vecs w) h = ap (λ vs. ok vs) h
  answered ts (raise e w) h = absurd h

  module _ (embed : EmbedBatch)
      (answers : (ts : List String) (w : World)
        → Always (λ vecs _. vecs ≡ map f ts) (embed ts w)) where
    joined :
        (chunk rest rows : List ValidRow) (more : Io (List ValidRow))
        (r : Result GoError (List Vector)) (w : World)
        → r ≡ ok (map f (texts chunk))
        → map with_vector chunk ++ map with_vector rest ≡ map with_vector rows
        → Always (Embedded rest) (more w)
        → Always (Embedded rows) (join_rows chunk more (embedded chunk r) rest w)
    joined chunk rest rows more r w e split h =
        rw (e, chunk_embedded chunk)
          (Always-after (Embedded rest) (Embedded rows) (more w) _ h
            λ later w' same. ap (λ xs. map with_vector chunk ++ xs) same ∙ split)

    embed_chunks-Embedded :
        (fuel : ℕ) (rows : List ValidRow) (w : World)
        → length rows ≤ fuel
        → Always (Embedded rows) (embed_chunks embed fuel rows w)
    unfolding embed_chunks
    embed_chunks-Embedded zero [] w le = refl
    embed_chunks-Embedded zero (vr ∷ vrs) w le = absurd (omega (arith, le))
    embed_chunks-Embedded (suc fuel) [] w le = refl
    embed_chunks-Embedded (suc fuel) (vr ∷ vrs) w le =
        let rows : List ValidRow = vr ∷ vrs in
        let chunk : List ValidRow = take embed_chunk_size rows in
        let rest : List ValidRow = drop embed_chunk_size rows in
        let shorter : length rest ≤ length vrs = length-drop 99 vrs in
        let split : map with_vector chunk ++ map with_vector rest ≡ map with_vector rows =
          sym (map-append with_vector chunk rest)
          ∙ ap (map with_vector) (take-drop embed_chunk_size rows) in
        Always-after (Answers (texts chunk)) (Embedded rows) (settle (embed (texts chunk) w)) _
          (answered (texts chunk) (embed (texts chunk) w) (answers (texts chunk) w))
          λ r w' e.
            joined chunk rest rows (embed_chunks embed fuel rest) r w' e split
              (embed_chunks-Embedded fuel rest w' (omega (arith, shorter, le)))

-- Where the embedder answers every batch with the vectors of its texts, in their order, every row
-- comes back with the vector of its own text, in its place, and is otherwise as before; an empty
-- vector leaves a row without one.
pub embed_all-with_vector :
    (embed : EmbedBatch) (f : String → Vector) (valid : List ValidRow) (w : World)
    → ((ts : List String) (w' : World) → Always (λ vecs _. vecs ≡ map f ts) (embed ts w'))
    → Always (λ out _. out ≡ map (with_vector f) valid) (embed_all (some embed) valid w)
unfolding embed_all
embed_all-with_vector embed f valid w answers =
    embed_chunks-Embedded f embed answers (length valid) valid w (omega arith)
