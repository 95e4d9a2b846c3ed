-- ===== src/Examples/Imports.antt =====
-- The import of a file.
use coeus.Prelude.{
  map, pos, Always, ◌+◌, ◌≡◌, refl, String, Char, Bool, true, some, ok, List, [], ◌∷◌, OnRet,
}
use coeus.Domain.Types.{Question}
use coeus.Domain.Types.{Vector}
use coeus.Domain.Errors.{plain}
use coeus.Storage.World.{Io, pure, throw}
use coeus.Importer.Rows.{normalize_row}
use coeus.Importer.Rows.Cells.{Shape, normalize_row-Shape}
use coeus.Importer.Service.{ValidRow, EmbedBatch, embed_all, import}
use coeus.Importer.Service.Embedded.{with_vector, embed_all-with_vector}
use coeus.Importer.Service.Totals.{Totals, import-Totals, import-counts}
use coeus.Examples.Data.{question, world}

abbrev rows : List (List String)
rows = ("What?" ∷ "a;b" ∷ "a" ∷ []) ∷ ("" ∷ "a;b" ∷ "a" ∷ []) ∷ []

abbrev same : Char → Char
same c = c

abbrev hash : String → String
hash s = s

abbrev created : Question → Io Bool
created q = pure true

abbrev embedder : EmbedBatch
embedder ts = throw (plain "no model")

abbrev valid : List ValidRow
valid = record { row = 1; q = question 1 "h" "verified" } ∷ []

import-Totals_example :
    OnRet
      (λ rep _. Totals same hash created (some embedder) 10 (ok rows) 2 world.clock rep)
      (import same hash created (some embedder) 10 (ok rows) 2 world)
import-Totals_example = import-Totals same hash created (some embedder) 10 (ok rows) 2 world

import-counts_example :
    OnRet
      (λ rep _. rep.created + rep.updated + rep.failed ≡ rep.total_rows)
      (import same hash created (some embedder) 10 (ok rows) 2 world)
import-counts_example =
    import-counts same hash created (some embedder) 10 (ok rows) 2 world (λ q w h. h) (λ ts w h. h)
      refl

abbrev code_of : String → Vector
code_of s = pos 5 ∷ []

-- An embedder that answers
abbrev model : EmbedBatch
model ts = pure (map code_of ts)

embed_all-with_vector_example :
    Always (λ out _. out ≡ map (with_vector code_of) valid) (embed_all (some model) valid world)
embed_all-with_vector_example = embed_all-with_vector model code_of valid world (λ ts w. refl)

normalize_row-Shape_example :
    Shape ("q" ∷ "" ∷ "a" ∷ " " ∷ []) (normalize_row ("q" ∷ "" ∷ "a" ∷ " " ∷ []))
normalize_row-Shape_example = normalize_row-Shape ("q" ∷ "" ∷ "a" ∷ " " ∷ [])
