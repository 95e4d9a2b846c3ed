-- ===== src/Importer/Service/Accounting.antt =====
-- The counters of the report of Import of internal/importer/importer.go.
use coeus.Prelude.{
  ℕ, suc, ◌+◌, ◌≤◌, ◌≡◌, refl, String, Char, Bool, true, false, none, Result, ok, err, List, [],
  ◌∷◌, length, length-append, arith, ret, raise, Outcome, OnRet, OnRet-after, OnRet-weaken,
  OnRet-always, attempt, min, final, subst, ◌∙◌, settle,
}
use coeus.Domain.Types.{Uuid, Instant, Question}
use coeus.Domain.Errors.{GoError, error_text}
use coeus.Storage.World.{World, Io, cancelled}
use coeus.Importer.Report.{Report, add_row_error, max_import_row_errors}
use coeus.Importer.Service.{
  ValidRow, row_result, sort_row, validate_rows, count_row, next_row, upsert_rows,
}

abbrev pub counted : Report → ℕ
counted rep = rep.created + rep.updated + rep.failed

-- Every failed row is listed, up to the cap.
abbrev pub Capped : Report → Type 0
Capped rep = length rep.errors ≡ min rep.failed max_import_row_errors

add_row_error-Capped :
    (n : ℕ) (msg : String) (rep : Report) → Capped rep → Capped (add_row_error n msg rep)
unfolding add_row_error
add_row_error-Capped n msg rep h =
    ground (arith, length-append rep.errors (record { row = n; message = msg } ∷ []))

-- A row that was sorted out is counted once, as valid or as failed.
pub record Sorted (total rows : ℕ) (acc : List ValidRow × Report) : Type 0 where
  pub each : length acc.0 + acc.1.failed ≡ rows
  pub total_rows : acc.1.total_rows ≡ total
  pub fresh : acc.1.created + acc.1.updated ≡ 0
  pub capped : Capped acc.1

sort_row-Sorted :
    (total n rows : ℕ) (r : Result GoError Question) (acc : List ValidRow × Report)
    → Sorted total rows acc
    → Sorted total (suc rows) (sort_row n r acc)
unfolding add_row_error
sort_row-Sorted total n rows (err e) acc s = record {
  each = ground (arith, s.each);
  total_rows = s.total_rows;
  fresh = s.fresh;
  capped = add_row_error-Capped n (error_text e) acc.1 s.capped;
}
sort_row-Sorted total n rows (ok q) acc s = record {
  each = ground (arith, s.each, length-append acc.0 (record { row = n; q = q } ∷ []));
  total_rows = s.total_rows;
  fresh = s.fresh;
  capped = s.capped;
}

module _ (lower : Char → Char) (sha256_hex : String → String) (user_id : Uuid) (at : Instant) where
  pub validate_rows-Sorted :
      (total n rows : ℕ) (raws : List (List String)) (acc : List ValidRow × Report)
      → Sorted total rows acc
      → Sorted total (rows + length raws) (validate_rows lower sha256_hex user_id at n raws acc)
  unfolding validate_rows
  validate_rows-Sorted total n rows [] acc s = subst (λ k. Sorted total k acc) (omega arith) s
  validate_rows-Sorted total n rows (raw ∷ raws) acc s =
      subst (λ k. Sorted total k (validate_rows lower sha256_hex user_id at n (raw ∷ raws) acc))
        (omega arith)
        (validate_rows-Sorted total (suc n) (suc rows) raws
          (sort_row n (row_result lower sha256_hex user_id at raw) acc)
          (sort_row-Sorted total n rows (row_result lower sha256_hex user_id at raw) acc s))

count_row-counts :
    (vr : ValidRow) (r : Result GoError Bool) (rep : Report)
    → counted (count_row vr r rep) ≡ suc (counted rep)
unfolding add_row_error
count_row-counts vr (err e) rep = ground arith
count_row-counts vr (ok true) rep = ground arith
count_row-counts vr (ok false) rep = ground arith

count_row-Capped :
    (vr : ValidRow) (r : Result GoError Bool) (rep : Report)
    → Capped rep
    → Capped (count_row vr r rep)
count_row-Capped vr (err e) rep h = add_row_error-Capped vr.row _ rep h
count_row-Capped vr (ok true) rep h = h
count_row-Capped vr (ok false) rep h = h

-- The report after the upserts of some rows: each is counted once at most.
pub record Upserted (rows : ℕ) (before rep : Report) : Type 0 where
  pub total : rep.total_rows ≡ before.total_rows
  pub at_most : counted rep ≤ counted before + rows
  pub capped : Capped before → Capped rep

count_row-total_rows :
    (vr : ValidRow) (r : Result GoError Bool) (rep : Report)
    → (count_row vr r rep).total_rows ≡ rep.total_rows
unfolding add_row_error
count_row-total_rows vr (err e) rep = refl
count_row-total_rows vr (ok true) rep = refl
count_row-total_rows vr (ok false) rep = refl

one_more :
    (vr : ValidRow) (rows : ℕ) (r : Result GoError Bool) (before rep : Report)
    → Upserted rows (count_row vr r before) rep
    → Upserted (suc rows) before rep
one_more vr rows r before rep u = record {
  total = u.total ∙ count_row-total_rows vr r before;
  at_most = omega (arith, u.at_most, count_row-counts vr r before);
  capped = λ c. u.capped (count_row-Capped vr r before c);
}

module _ (upsert : Question → Io Bool) where
  next_row-Upserted :
      (rows : ℕ) (vr : ValidRow) (rep : Report) (more : Report → Io Report)
      → ((rep' : Report) (w : World) → OnRet (λ r _. Upserted rows rep' r) (more rep' w))
      → (stop : Bool) (w : World)
      → OnRet (λ r _. Upserted (suc rows) rep r) (next_row upsert vr rep more stop w)
  next_row-Upserted rows vr rep more h true w = record {
    total = refl;
    at_most = omega arith;
    capped = λ c. c;
  }
  next_row-Upserted rows vr rep more h false w =
      OnRet-after (λ _ _. Unit) (λ r _. Upserted (suc rows) rep r) (attempt (upsert vr.q) w)
        (λ created. more (count_row vr created rep))
        (OnRet-always (λ _ _. Unit) (attempt (upsert vr.q) w) λ _ _. tt)
        λ created w1 _.
          OnRet-weaken (λ r _. Upserted rows (count_row vr created rep) r)
            (λ r _. Upserted (suc rows) rep r) (more (count_row vr created rep) w1)
            (h (count_row vr created rep) w1) λ r _ u. one_more vr rows created rep r u

  pub upsert_rows-Upserted :
      (vrs : List ValidRow) (rep : Report) (w : World)
      → OnRet (λ r _. Upserted (length vrs) rep r) (upsert_rows upsert vrs rep w)
  unfolding upsert_rows cancelled
  upsert_rows-Upserted [] rep w = record { total = refl; at_most = omega arith; capped = λ c. c }
  upsert_rows-Upserted (vr ∷ vrs) rep w =
      next_row-Upserted (length vrs) vr rep (upsert_rows upsert vrs) (upsert_rows-Upserted vrs) _ _

  module _
      (lives : (q : Question) (w : World) → w.left ≡ none → (final (upsert q w)).left ≡ none) where
    pub attempt-lives :
        (o : Outcome GoError World Bool)
        → (final o).left ≡ none
        → OnRet (λ _ w'. w'.left ≡ none) (settle o)
    attempt-lives (ret b w') h = h
    attempt-lives (raise e w') h = h

    pub upsert_rows-counts :
        (vrs : List ValidRow) (rep : Report) (w : World)
        → w.left ≡ none
        → OnRet (λ rep' _. counted rep' ≡ counted rep + length vrs) (upsert_rows upsert vrs rep w)
    unfolding upsert_rows cancelled
    upsert_rows-counts [] rep w alive = omega arith
    upsert_rows-counts (vr ∷ vrs) rep w alive =
        let w0 : World = record w { left = none } in
        rw alive (
          OnRet-after (λ _ w'. w'.left ≡ none) (λ r _. counted r ≡ counted rep + suc (length vrs))
            (attempt (upsert vr.q) w0)
            (λ created. upsert_rows upsert vrs (count_row vr created rep))
            (attempt-lives (upsert vr.q w0) (lives vr.q w0 refl))
            λ created w1 still.
              OnRet-weaken (λ r _. counted r ≡ counted (count_row vr created rep) + length vrs)
                (λ r _. counted r ≡ counted rep + suc (length vrs))
                (upsert_rows upsert vrs (count_row vr created rep) w1)
                (upsert_rows-counts vrs (count_row vr created rep) w1 still)
                λ r _ e. omega (arith, e, count_row-counts vr created rep))
