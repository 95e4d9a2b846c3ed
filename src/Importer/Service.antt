-- ===== src/Importer/Service.antt =====
-- Import and embedAll of internal/importer/importer.go. The two ports are arguments; a nil embedder
-- is `none`. The rows that embedAll writes through pointers come back as its result.
pub mod Accounting
pub mod Embedding
pub mod Embedded
pub mod Failures
pub mod Totals
use coeus.Prelude.{
  ℕ, zero, suc, ◌+◌, String, Char, concat, Bool, true, false, Option, none, some, Result, ok, err,
  List, [], ◌∷◌, ◌++◌, map, length, take, drop, ltb, ◌==◌, if◌then◌else◌, ◌>>=◌, ◌>>◌, attempt,
  lift,
}
use coeus.Domain.Types.{Uuid, Instant, Vector, Question}
use coeus.Domain.Errors.{GoError, error_text}
use coeus.Storage.World.{World, Io, pure, throw, now, cancelled}
use coeus.Importer.Report.{Report, add_row_error}
use coeus.Importer.Rows.{normalize_row, build_question}
use coeus.Importer.Parse.{err_too_many_rows}

abbrev pub embed_chunk_size : ℕ
embed_chunk_size = 100

pub record ValidRow : Type 0 where
  pub row : ℕ
  pub q : Question

abbrev pub EmbedBatch : Type 0
EmbedBatch = List String → Io (List Vector)

-- A nil slice is stored as NULL.
abbrev pub of_slice : Vector → Option Vector
of_slice [] = none
of_slice (x ∷ xs) = some (x ∷ xs)

abbrev pub set_embedding : ValidRow → Vector → ValidRow
set_embedding vr vec = record vr { q = record vr.q { embedding = of_slice vec } }

-- for i, vec := range vecs { chunk[i].q.Embedding = vec }
pub assign : List ValidRow → List Vector → List ValidRow
assign (vr ∷ vrs) (vec ∷ vecs) = set_embedding vr vec ∷ assign vrs vecs
assign vrs _ = vrs

abbrev pub texts : List ValidRow → List String
texts [] = []
texts (vr ∷ vrs) = vr.q.text ∷ texts vrs

-- One chunk's answer: an error or a wrong count ends the loop.
abbrev pub embedded : List ValidRow → Result GoError (List Vector) → Option (List ValidRow)
embedded chunk (err e) = none
embedded chunk (ok vecs) = if length vecs == length chunk then some (assign chunk vecs) else none

abbrev pub join_rows :
    List ValidRow → Io (List ValidRow) → Option (List ValidRow) → List ValidRow → Io (List ValidRow)
join_rows chunk more none rest = pure (chunk ++ rest)
join_rows chunk more (some done) rest = do later ← more; pure (done ++ later)

-- The loop over chunks, on fuel: each round drops a chunk.
unfoldable pub embed_chunks : EmbedBatch → ℕ → List ValidRow → Io (List ValidRow)
unfolding assign
embed_chunks embed zero rows = pure rows
embed_chunks embed (suc fuel) [] = pure []
embed_chunks embed (suc fuel) (vr ∷ vrs) = do
  let chunk = take embed_chunk_size (vr ∷ vrs)
  let rest = drop embed_chunk_size (vr ∷ vrs)
  answer ← attempt (embed (texts chunk))
  join_rows chunk (embed_chunks embed fuel rest) (embedded chunk answer) rest

unfoldable pub embed_all : Option EmbedBatch → List ValidRow → Io (List ValidRow)
unfolding embed_chunks
embed_all none valid = pure valid
embed_all (some embed) valid = embed_chunks embed (length valid) valid

-- The fields of a row that failed, or the question that it holds.
abbrev row_result :
    (Char → Char) → (String → String) → Uuid → Instant → List String → Result GoError Question
row_result lower sha256_hex user_id at raw = elim (normalize_row raw) [
  | err e ↦ err e
  | ok cols ↦ build_question lower sha256_hex cols user_id at
]

abbrev sort_row : ℕ → Result GoError Question → List ValidRow × Report → List ValidRow × Report
sort_row n (err e) (valid, rep) = (valid, add_row_error n (error_text e) rep)
sort_row n (ok q) (valid, rep) = (valid ++ record { row = n; q = q } ∷ [], rep)

module _ (lower : Char → Char) (sha256_hex : String → String) where
  -- The loop over the raw rows; `n` is the 1-based number of the first.
  unfoldable pub validate_rows :
      Uuid → Instant → ℕ → List (List String) → List ValidRow × Report → List ValidRow × Report
  validate_rows user_id at n [] acc = acc
  validate_rows user_id at n (raw ∷ raws) acc =
      validate_rows user_id at (suc n) raws
        (sort_row n (row_result lower sha256_hex user_id at raw) acc)

-- created, err := UpsertFromImport(…)
abbrev count_row : ValidRow → Result GoError Bool → Report → Report
count_row vr (err e) rep = add_row_error vr.row (concat "upsert failed: " (error_text e)) rep
count_row vr (ok true) rep = record rep { created = rep.created + 1 }
count_row vr (ok false) rep = record rep { updated = rep.updated + 1 }

module _ (upsert : Question → Io Bool) where
  -- One round; `more` is the rest of the loop.
  abbrev pub next_row : ValidRow → Report → (Report → Io Report) → Bool → Io Report
  next_row vr rep more true = pure rep
  next_row vr rep more false = do created ← attempt (upsert vr.q); more (count_row vr created rep)

  unfoldable pub upsert_rows : List ValidRow → Report → Io Report
  unfolding cancelled
  upsert_rows [] rep = pure rep
  upsert_rows (vr ∷ vrs) rep = do stop ← cancelled; next_row vr rep (upsert_rows vrs) stop

abbrev empty_report : ℕ → Report
empty_report n = record { total_rows = n; created = 0; updated = 0; failed = 0; errors = [] }

module _ (lower : Char → Char) (sha256_hex : String → String) (upsert : Question → Io Bool)
    (embedder : Option EmbedBatch) (max_rows : ℕ) where
  -- `parsed` is what parseCSV or parseXLSX made of the file.
  unfoldable pub import : Result GoError (List (List String)) → Uuid → Io Report
  unfolding validate_rows embed_all upsert_rows
  import parsed user_id = do
    rows ← lift parsed
    if ltb max_rows (length rows) then throw err_too_many_rows else (do
      at ← now
      let sorted = validate_rows lower sha256_hex user_id at 1 rows ([], empty_report (length rows))
      valid ← embed_all embedder sorted.0
      upsert_rows upsert valid sorted.1)
