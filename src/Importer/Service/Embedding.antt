-- ===== src/Importer/Service/Embedding.antt =====
-- embedAll of internal/importer/importer.go.
use coeus.Prelude.{
  ℕ, zero, suc, ◌≤◌, ◌≡◌, refl, sym, ap, ◌∙◌, String, Option, none, some, Result, ok, err, List, [],
  ◌∷◌, ◌++◌, map, map-append, take-drop, length-drop, length, take, drop, arith, Always,
  Always-after, Always-settle, final, settle, Outcome, ret, raise, ◌==◌, Bool-cases, inl, inr,
}
use coeus.Domain.Types.{Vector}
use coeus.Domain.Errors.{GoError}
use coeus.Storage.World.{World, Io}
use coeus.Importer.Service.{
  ValidRow, EmbedBatch, assign, texts, embedded, join_rows, embed_chunks, embed_chunk_size,
  embed_all,
}

-- A row without its embedding
abbrev pub bare : ValidRow → ValidRow
bare vr = record vr { q = record vr.q { embedding = none } }

bare-assign : (vrs : List ValidRow) (vecs : List Vector) → map bare (assign vrs vecs) ≡ map bare vrs
unfolding assign
bare-assign [] [] = refl
bare-assign [] (v ∷ vecs) = refl
bare-assign (vr ∷ vrs) [] = refl
bare-assign (vr ∷ vrs) (v ∷ vecs) = ap (λ r. bare vr ∷ r) (bare-assign vrs vecs)

abbrev BareOf : List ValidRow → List ValidRow → World → Type 0
BareOf rows out _ = map bare out ≡ map bare rows

-- A chunk and the rows behind it
parts :
    (n : ℕ) (rows : List ValidRow)
    → map bare (take n rows) ++ map bare (drop n rows) ≡ map bare rows
parts n rows = sym (map-append bare (take n rows) (drop n rows)) ∙ ap (map bare) (take-drop n rows)

bare-join_rows :
    (chunk rest rows : List ValidRow) (more : Io (List ValidRow)) (r : Result GoError (List Vector))
    (w : World)
    → map bare chunk ++ map bare rest ≡ map bare rows
    → ((w : World) → Always (BareOf rest) (more w))
    → Always (BareOf rows) (join_rows chunk more (embedded chunk r) rest w)
bare-join_rows chunk rest rows more (err e) w split h = map-append bare chunk rest ∙ split
bare-join_rows chunk rest rows more (ok vecs) w split h =
    elim (Bool-cases (length vecs == length chunk)) [
      | inl e ↦ rw e (
          Always-after (BareOf rest) (BareOf rows) (more w) _ (h w) λ later w' same.
            map-append bare (assign chunk vecs) later ∙ (rw (bare-assign chunk vecs, same) split))
      | inr e ↦ rw e (map-append bare chunk rest ∙ split)
    ]

module _ (embed : EmbedBatch) where
  bare-embed_chunks :
      (fuel : ℕ) (rows : List ValidRow) (w : World)
      → Always (BareOf rows) (embed_chunks embed fuel rows w)
  unfolding embed_chunks
  bare-embed_chunks zero rows w = refl
  bare-embed_chunks (suc fuel) [] w = refl
  bare-embed_chunks (suc fuel) (vr ∷ vrs) w =
      let rows : List ValidRow = vr ∷ vrs in
      let chunk : List ValidRow = take embed_chunk_size rows in
      let rest : List ValidRow = drop embed_chunk_size rows in
      Always-settle (BareOf rows) (embed (texts chunk) w) _ λ r w'.
        bare-join_rows chunk rest rows (embed_chunks embed fuel rest) r w'
          (parts embed_chunk_size rows) (bare-embed_chunks fuel rest)

  module _
      (lives : (ts : List String) (w : World)
        → w.left ≡ none
        → (final (embed ts w)).left ≡ none) where
    embed-lives :
        (o : Outcome GoError World (List Vector))
        → (final o).left ≡ none
        → Always (λ _ w'. w'.left ≡ none) (settle o)
    embed-lives (ret b w') h = h
    embed-lives (raise e w') h = h

    join_rows-lives :
        (chunk rest : List ValidRow) (more : Io (List ValidRow)) (r : Result GoError (List Vector))
        (w : World)
        → w.left ≡ none
        → ((w : World) → w.left ≡ none → Always (λ _ w'. w'.left ≡ none) (more w))
        → Always (λ _ w'. w'.left ≡ none) (join_rows chunk more (embedded chunk r) rest w)
    join_rows-lives chunk rest more (err e) w alive h = alive
    join_rows-lives chunk rest more (ok vecs) w alive h =
        elim (Bool-cases (length vecs == length chunk)) [
          | inl e ↦ rw e (
              Always-after (λ _ w'. w'.left ≡ none) (λ _ w'. w'.left ≡ none) (more w) _ (h w alive)
                λ later w' still. still)
          | inr e ↦ rw e alive
        ]

    embed_chunks-lives :
        (fuel : ℕ) (rows : List ValidRow) (w : World)
        → w.left ≡ none
        → Always (λ _ w'. w'.left ≡ none) (embed_chunks embed fuel rows w)
    unfolding embed_chunks
    embed_chunks-lives zero rows w alive = alive
    embed_chunks-lives (suc fuel) [] w alive = alive
    embed_chunks-lives (suc fuel) (vr ∷ vrs) w alive =
        let chunk : List ValidRow = take embed_chunk_size (vr ∷ vrs) in
        let rest : List ValidRow = drop embed_chunk_size (vr ∷ vrs) in
        Always-after (λ _ w'. w'.left ≡ none) (λ _ w'. w'.left ≡ none)
          (settle (embed (texts chunk) w)) _
          (embed-lives (embed (texts chunk) w) (lives (texts chunk) w alive))
          λ r w' still.
            join_rows-lives chunk rest (embed_chunks embed fuel rest) r w' still
              (embed_chunks-lives fuel rest)

  -- A number of rounds that is no less than the number of rows makes no difference.
  pub embed_chunks-fuel :
      (f g : ℕ) (rows : List ValidRow)
      → length rows ≤ f
      → length rows ≤ g
      → embed_chunks embed f rows ≡ embed_chunks embed g rows
  unfolding embed_chunks
  embed_chunks-fuel zero zero [] hf hg = refl
  embed_chunks-fuel zero (suc g) [] hf hg = refl
  embed_chunks-fuel (suc f) zero [] hf hg = refl
  embed_chunks-fuel (suc f) (suc g) [] hf hg = refl
  embed_chunks-fuel zero g (vr ∷ vrs) hf hg = absurd (omega (arith, hf))
  embed_chunks-fuel (suc f) zero (vr ∷ vrs) hf hg = absurd (omega (arith, hg))
  embed_chunks-fuel (suc f) (suc g) (vr ∷ vrs) hf hg =
      let rest : List ValidRow = drop 99 vrs in
      let shorter : length rest ≤ length vrs = length-drop 99 vrs in
      rw (embed_chunks-fuel f g rest (omega (arith, shorter, hf)) (omega (arith, shorter, hg))) refl

-- Embedding the rows never fails the import, whatever the embedder does: the rows come back all and
-- in order, and nothing but their embeddings may differ.
pub embed_all-bare :
    (embedder : Option EmbedBatch) (valid : List ValidRow) (w : World)
    → Always (λ out _. map bare out ≡ map bare valid) (embed_all embedder valid w)
unfolding embed_all
embed_all-bare none valid w = refl
embed_all-bare (some embed) valid w = bare-embed_chunks embed (length valid) valid w

-- A context that an embedder leaves alive is alive after the embedding.
abbrev pub EmbedderLives : Option EmbedBatch → Type 0
EmbedderLives none = Unit
EmbedderLives (some embed) =
    (ts : List String) (w : World) → w.left ≡ none → (final (embed ts w)).left ≡ none

pub embed_all-lives :
    (embedder : Option EmbedBatch) (valid : List ValidRow) (w : World)
    → EmbedderLives embedder
    → w.left ≡ none
    → Always (λ _ w'. w'.left ≡ none) (embed_all embedder valid w)
unfolding embed_all
embed_all-lives none valid w k alive = alive
embed_all-lives (some embed) valid w k alive =
    embed_chunks-lives embed k (length valid) valid w alive
