-- ===== src/Importer/Service/Totals.antt =====
-- The report that Import of internal/importer/importer.go returns.
use coeus.Prelude.{
  ◌∷◌, ◌++◌, take, ℕ, ◌+◌, ◌≤◌, ◌≡◌, refl, subst, sym, ap, ◌∙◌, String, Char, Bool, Option, none,
  Result, ok, err, List, [], map, length, length-map, arith, OnRet, OnRet-after, OnRet-weaken,
  OnRet-both, Always→OnRet, Always-both, final, ltb, inl, inr, Bool-cases,
}
use coeus.Domain.Types.{Instant, Uuid, Question}
use coeus.Domain.Errors.{GoError}
use coeus.Storage.World.{World, Io}
use coeus.Importer.Report.{Report, RowError}
use coeus.Importer.Service.Failures.{
  number_of, refused, passed, Among, Listed, Upserts, validate_rows-Validated, upsert_rows-Upserts,
}
use coeus.Importer.Service.{
  ValidRow, EmbedBatch, validate_rows, embed_all, upsert_rows, empty_report, import,
}
use coeus.Importer.Service.Accounting.{
  Sorted, counted, Upserted, validate_rows-Sorted, upsert_rows-Upserted, upsert_rows-counts,
}
use coeus.Importer.Service.Embedding.{bare, embed_all-bare, embed_all-lives, EmbedderLives}

same_length :
    (out valid : List ValidRow) → map bare out ≡ map bare valid → length out ≡ length valid
same_length out valid e = sym (length-map bare out) ∙ (ap length e ∙ length-map bare valid)

module _ (lower : Char → Char) (sha256_hex : String → String) (upsert : Question → Io Bool)
    (embedder : Option EmbedBatch) (max_rows : ℕ) where
  -- A report on a file of some rows
  pub record Totals (parsed : Result GoError (List (List String))) (user_id : Uuid) (at : Instant)
      (rep : Report) : Type 0 where
    pub rows : List (List String)
    pub read : parsed ≡ ok rows
    pub within : length rows ≤ max_rows
    pub total : rep.total_rows ≡ length rows
    pub at_most : rep.created + rep.updated + rep.failed ≤ rep.total_rows
    pub later : List RowError
    pub of_rows : Among (passed lower sha256_hex user_id at 1 rows) later
    pub failures : rep.failed ≡ length (refused lower sha256_hex user_id at 1 rows ++ later)
    pub listed : rep.errors ≡ take 100 (refused lower sha256_hex user_id at 1 rows ++ later)

  abbrev sorted : List (List String) → Uuid → World → List ValidRow × Report
  sorted rows user_id w =
      validate_rows lower sha256_hex user_id w.clock 1 rows ([], empty_report (length rows))

  sorted-Sorted :
      (rows : List (List String)) (user_id : Uuid) (w : World)
      → Sorted (length rows) (length rows) (sorted rows user_id w)
  sorted-Sorted rows user_id w =
      subst (λ k. Sorted (length rows) k (sorted rows user_id w)) (omega arith)
        (validate_rows-Sorted lower sha256_hex user_id w.clock (length rows) 1 0 rows
          ([], empty_report (length rows))
          (record { each = refl; total_rows = refl; fresh = refl; capped = refl }))

  abbrev Done : List (List String) → List ValidRow → Report → Uuid → World → Report → Type 0
  Done rows valid before user_id w rep =
      Upserted (length valid) before rep
      × Upserts valid (refused lower sha256_hex user_id w.clock 1 rows) rep

  numbers :
      (valid out : List ValidRow)
      → map bare out ≡ map bare valid
      → map number_of out ≡ map number_of valid
  numbers [] [] e = refl
  numbers [] (o ∷ out) e = absurd (ground arith)
  numbers (v ∷ valid) [] e = absurd (ground arith)
  numbers (v ∷ valid) (o ∷ out) e =
      let same : bare o ≡ bare v = ground arith in
      let rest : map bare out ≡ map bare valid = ground arith in
      let number : o.row ≡ v.row = ap (λ (x : ValidRow). x.row) same in
      rw (number, numbers valid out rest) refl

  -- The report of rows that were sorted and then upserted.
  reported :
      (rows : List (List String)) (user_id : Uuid) (w : World) (valid : List ValidRow)
      (rep : Report)
      → length rows ≤ max_rows
      → map bare valid ≡ map bare (sorted rows user_id w).0
      → Done rows valid (sorted rows user_id w).1 user_id w rep
      → Totals (ok rows) user_id w.clock rep
  reported rows user_id w valid rep within same (u, v) =
      let s : Sorted (length rows) (length rows) (sorted rows user_id w) =
        sorted-Sorted rows user_id w in
      record {
        rows = rows;
        read = refl;
        within = within;
        total = u.total ∙ s.total_rows;
        at_most = omega (
          arith,
          u.at_most,
          u.total,
          s.total_rows,
          s.each,
          s.fresh,
          same_length valid (sorted rows user_id w).0 same,
        );
        later = v.later;
        of_rows =
            subst (λ ns. Among ns v.later)
              (numbers (sorted rows user_id w).0 valid same
                ∙ (validate_rows-Validated lower sha256_hex user_id w.clock 1 rows []
                    ([], empty_report (length rows)) (record { errors = refl; failed = refl })).1)
              v.among;
        failures = v.listed.failed;
        listed = v.listed.errors;
      }

  -- An import that returns a report has read the file, which is within the row limit; the report
  -- counts no row twice. Its errors are those of the rows that are refused, each with its number from 1
  -- on, then those of rows that were not, in their order and one at most for each; it counts them all
  -- and lists the first hundred.
  pub import-Totals :
      (parsed : Result GoError (List (List String))) (user_id : Uuid) (w : World)
      → OnRet
          (λ rep _. Totals parsed user_id w.clock rep)
          (import lower sha256_hex upsert embedder max_rows parsed user_id w)
  unfolding import
  import-Totals (err e) user_id w = tt
  import-Totals (ok rows) user_id w = elim (Bool-cases (ltb max_rows (length rows))) [
    | inl e ↦ rw e tt
    | inr e ↦
        let acc : List ValidRow × Report = sorted rows user_id w in
        let Same : List ValidRow → World → Type 0 = λ valid _. map bare valid ≡ map bare acc.0 in
        let All : Report → World → Type 0 = λ rep _. Totals (ok rows) user_id w.clock rep in
        let l : Listed (refused lower sha256_hex user_id w.clock 1 rows) acc.1 =
          (validate_rows-Validated lower sha256_hex user_id w.clock 1 rows []
            ([], empty_report (length rows)) (record { errors = refl; failed = refl })).0 in
        rw e (
          OnRet-after Same All (embed_all embedder acc.0 w)
            (λ valid. upsert_rows upsert valid acc.1)
            (Always→OnRet Same (embed_all embedder acc.0 w) (embed_all-bare embedder acc.0 w))
            λ valid w' same.
              OnRet-weaken (λ rep _. Done rows valid acc.1 user_id w rep) All
                (upsert_rows upsert valid acc.1 w')
                (OnRet-both (λ rep _. Upserted (length valid) acc.1 rep)
                  (λ rep _. Upserts valid (refused lower sha256_hex user_id w.clock 1 rows) rep)
                  (upsert_rows upsert valid acc.1 w') (upsert_rows-Upserted upsert valid acc.1 w')
                  (upsert_rows-Upserts upsert valid
                    (refused lower sha256_hex user_id w.clock 1 rows) acc.1 w' l))
                λ rep _ d. reported rows user_id w valid rep (ground arith) same d)
  ]

  -- Where the caller's context stays alive throughout, every row is counted exactly once.
  pub import-counts :
      (parsed : Result GoError (List (List String))) (user_id : Uuid) (w : World)
      → ((q : Question) (w' : World) → w'.left ≡ none → (final (upsert q w')).left ≡ none)
      → EmbedderLives embedder
      → w.left ≡ none
      → OnRet
          (λ rep _. rep.created + rep.updated + rep.failed ≡ rep.total_rows)
          (import lower sha256_hex upsert embedder max_rows parsed user_id w)
  unfolding import
  import-counts (err e) user_id w upsert_lives embed_lives alive = tt
  import-counts (ok rows) user_id w upsert_lives embed_lives alive =
      elim (Bool-cases (ltb max_rows (length rows))) [
        | inl e ↦ rw e tt
        | inr e ↦
            let acc : List ValidRow × Report = sorted rows user_id w in
            let s : Sorted (length rows) (length rows) acc = sorted-Sorted rows user_id w in
            let Same : List ValidRow → World → Type 0 =
              λ valid w'. (map bare valid ≡ map bare acc.0) × (w'.left ≡ none) in
            let Done : Report → World → Type 0 =
              λ rep _. rep.created + rep.updated + rep.failed ≡ rep.total_rows in
            rw e (
              OnRet-after Same Done (embed_all embedder acc.0 w)
                (λ valid. upsert_rows upsert valid acc.1)
                (Always→OnRet Same (embed_all embedder acc.0 w) (
                  Always-both _ _ (embed_all embedder acc.0 w) (embed_all-bare embedder acc.0 w)
                    (embed_all-lives embedder acc.0 w embed_lives alive)))
                λ valid w' (same, still).
                  OnRet-weaken
                    (λ rep _.
                      Upserted (length valid) acc.1 rep
                      × (counted rep ≡ counted acc.1 + length valid))
                    Done (upsert_rows upsert valid acc.1 w')
                    (OnRet-both (λ rep _. Upserted (length valid) acc.1 rep)
                      (λ rep _. counted rep ≡ counted acc.1 + length valid)
                      (upsert_rows upsert valid acc.1 w')
                      (upsert_rows-Upserted upsert valid acc.1 w')
                      (upsert_rows-counts upsert upsert_lives valid acc.1 w' still))
                    λ rep _ (u, c). omega (
                      arith,
                      c,
                      u.total,
                      s.total_rows,
                      s.each,
                      s.fresh,
                      same_length valid acc.0 same,
                    ))
      ]
