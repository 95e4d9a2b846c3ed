-- ===== src/Importer/Service/Failures.antt =====
-- The failed rows that the report of Import of internal/importer/importer.go lists.
use coeus.Prelude.{
  ℕ, zero, suc, ◌≡◌, refl, sym, ap, ◌∙◌, subst, String, Char, true, false, Bool, Bool-cases, inl,
  inr, Result, ok, err, List, [], ◌∷◌, ◌++◌, map, map-append, append_assoc, append-nil, concat,
  length, length-append, take, ltb, arith, OnRet, OnRet-after, OnRet-weaken, OnRet-always, attempt,
  if◌then◌else◌,
}
use coeus.Domain.Types.{Uuid, Instant, Question}
use coeus.Domain.Errors.{GoError, error_text}
use coeus.Storage.World.{World, Io, cancelled}
use coeus.Importer.Report.{Report, RowError, add_row_error}
use coeus.Importer.Service.{
  ValidRow, row_result, sort_row, validate_rows, count_row, next_row, upsert_rows,
}

abbrev pub number_of : ValidRow → ℕ
number_of vr = vr.row

abbrev with_refused : ℕ → Result GoError Question → List RowError → List RowError
with_refused n (err e) es = record { row = n; message = error_text e } ∷ es
with_refused n (ok q) es = es

abbrev with_passed : ℕ → Result GoError Question → List ℕ → List ℕ
with_passed n (err e) ns = ns
with_passed n (ok q) ns = n ∷ ns

-- The errors of the rows that are refused, and the numbers of the others; `n` numbers the first row.
module _ (lower : Char → Char) (sha256_hex : String → String) (user_id : Uuid) (at : Instant) where
  abbrev pub refused : ℕ → List (List String) → List RowError
  refused n [] = []
  refused n (raw ∷ raws) =
      with_refused n (row_result lower sha256_hex user_id at raw) (refused (suc n) raws)

  abbrev pub passed : ℕ → List (List String) → List ℕ
  passed n [] = []
  passed n (raw ∷ raws) =
      with_passed n (row_result lower sha256_hex user_id at raw) (passed (suc n) raws)

-- The errors are of some of the rows, in their order, one at most for each.
pub data Among : List ℕ → List RowError → Type 0 where
  done : (ns : List ℕ) → Among ns []
  fine : (n : ℕ) (ns : List ℕ) (es : List RowError) → Among ns es → Among (n ∷ ns) es
  failing :
      (n : ℕ) (ns : List ℕ) (msg : String) (es : List RowError)
      → Among ns es
      → Among (n ∷ ns) (record { row = n; message = msg } ∷ es)

-- The report counts these errors, and lists the first hundred of them.
pub record Listed (all : List RowError) (rep : Report) : Type 0 where
  pub errors : rep.errors ≡ take 100 all
  pub failed : rep.failed ≡ length all

take-empty : {A : Type 0} (k : ℕ) → ◌≡◌ {A = List A} (take k []) []
take-empty zero = refl
take-empty (suc k) = refl

take-snoc :
    {A : Type 0} (k : ℕ) (xs : List A) (x : A)
    → take k (xs ++ x ∷ [])
      ≡ (if ltb (length (take k xs)) k then take k xs ++ x ∷ [] else take k xs)
take-snoc zero xs x = refl
take-snoc {A} (suc k) [] x =
    let room : ltb 0 (suc k) ≡ true = ground arith in
    rw room (ap (λ ys. x ∷ ys) (take-empty {A = A} k))
take-snoc (suc k) (y ∷ ys) x = elim (Bool-cases (ltb (length (take k ys)) k)) [
  | inl e ↦ ground (arith, take-snoc k ys x)
  | inr e ↦ ground (arith, take-snoc k ys x)
]

add_row_error-Listed :
    (n : ℕ) (msg : String) (all : List RowError) (rep : Report)
    → Listed all rep
    → Listed (all ++ record { row = n; message = msg } ∷ []) (add_row_error n msg rep)
unfolding add_row_error
add_row_error-Listed n msg all rep h = record {
  errors = rw h.errors (sym (take-snoc 100 all (record { row = n; message = msg })));
  failed = omega (arith, h.failed, length-append all (record { row = n; message = msg } ∷ []));
}

module _ (lower : Char → Char) (sha256_hex : String → String) (user_id : Uuid) (at : Instant) where
  abbrev Validated :
      ℕ → List (List String) → List RowError → List ValidRow → List ValidRow × Report → Type 0
  Validated n raws all valid acc =
      Listed (all ++ refused lower sha256_hex user_id at n raws) acc.1
      × (map number_of acc.0 ≡ map number_of valid ++ passed lower sha256_hex user_id at n raws)

  -- One row in front of the others
  validated :
      (n : ℕ) (raws : List (List String)) (all : List RowError) (acc : List ValidRow × Report)
      → Listed all acc.1
      → ((all' : List RowError) (acc' : List ValidRow × Report)
          → Listed all' acc'.1
          → Validated
              (suc n)
              raws
              all'
              acc'.0
              (validate_rows lower sha256_hex user_id at (suc n) raws acc'))
      → (r : Result GoError Question)
      → Listed
          (all ++ with_refused n r (refused lower sha256_hex user_id at (suc n) raws))
          (validate_rows lower sha256_hex user_id at (suc n) raws (sort_row n r acc)).1
        × (map number_of
              (validate_rows lower sha256_hex user_id at (suc n) raws (sort_row n r acc)).0
            ≡ map number_of acc.0
              ++ with_passed n r (passed lower sha256_hex user_id at (suc n) raws))
  validated n raws all acc h k (err e) =
      let x : RowError = record { row = n; message = error_text e } in
      let (l, p) =
        k (all ++ x ∷ []) (sort_row n (err e) acc)
          (add_row_error-Listed n (error_text e) all acc.1 h) in
      (
        subst
            (λ es.
              Listed es
                (validate_rows lower sha256_hex user_id at (suc n) raws (sort_row n (err e) acc)).1)
            (append_assoc all (x ∷ []) (refused lower sha256_hex user_id at (suc n) raws)) l,
        p,
      )
  validated n raws all acc h k (ok q) =
      let (l, p) = k all (sort_row n (ok q) acc) h in
      (
        l,
        p
            ∙ (ap (λ xs. xs ++ passed lower sha256_hex user_id at (suc n) raws)
                  (map-append number_of acc.0 (record { row = n; q = q } ∷ []))
                ∙ append_assoc (map number_of acc.0) (n ∷ [])
                    (passed lower sha256_hex user_id at (suc n) raws)),
      )

  pub validate_rows-Validated :
      (n : ℕ) (raws : List (List String)) (all : List RowError) (acc : List ValidRow × Report)
      → Listed all acc.1
      → Validated n raws all acc.0 (validate_rows lower sha256_hex user_id at n raws acc)
  unfolding validate_rows
  validate_rows-Validated n [] all acc h = (
    subst (λ es. Listed es acc.1) (sym (append-nil all)) h,
    sym (append-nil (map number_of acc.0)),
  )
  validate_rows-Validated n (raw ∷ raws) all acc h =
      validated n raws all acc h (validate_rows-Validated (suc n) raws)
        (row_result lower sha256_hex user_id at raw)

-- The report of the upserts of some rows
pub record Upserts (vrs : List ValidRow) (all : List RowError) (rep : Report) : Type 0 where
  pub later : List RowError
  pub among : Among (map number_of vrs) later
  pub listed : Listed (all ++ later) rep

abbrev with_failed : ValidRow → Result GoError Bool → List RowError
with_failed vr (ok created) = []
with_failed vr (err e) =
    record { row = vr.row; message = concat "upsert failed: " (error_text e) } ∷ []

count_row-Listed :
    (vr : ValidRow) (r : Result GoError Bool) (all : List RowError) (rep : Report)
    → Listed all rep
    → Listed (all ++ with_failed vr r) (count_row vr r rep)
count_row-Listed vr (ok true) all rep h =
    subst (λ es. Listed es (count_row vr (ok true) rep)) (sym (append-nil all))
      (record { errors = h.errors; failed = h.failed })
count_row-Listed vr (ok false) all rep h =
    subst (λ es. Listed es (count_row vr (ok false) rep)) (sym (append-nil all))
      (record { errors = h.errors; failed = h.failed })
count_row-Listed vr (err e) all rep h = add_row_error-Listed vr.row _ all rep h

one_more :
    (vr : ValidRow) (vrs : List ValidRow) (r : Result GoError Bool) (all : List RowError)
    (rep : Report)
    → Upserts vrs (all ++ with_failed vr r) rep
    → Upserts (vr ∷ vrs) all rep
one_more vr vrs (ok created) all rep u = record {
  later = u.later;
  among = fine vr.row _ _ u.among;
  listed = subst (λ es. Listed (es ++ u.later) rep) (append-nil all) u.listed;
}
one_more vr vrs (err e) all rep u = record {
  later = with_failed vr (err e) ++ u.later;
  among = failing vr.row _ _ _ u.among;
  listed = subst (λ es. Listed es rep) (append_assoc all (with_failed vr (err e)) u.later) u.listed;
}

module _ (upsert : Question → Io Bool) where
  stopped :
      (vrs : List ValidRow) (all : List RowError) (rep : Report)
      → Listed all rep
      → Upserts vrs all rep
  stopped vrs all rep h = record {
    later = [];
    among = done _;
    listed = subst (λ es. Listed es rep) (sym (append-nil all)) h;
  }

  next_row-Upserts :
      (vr : ValidRow) (vrs : List ValidRow) (all : List RowError) (rep : Report)
      (more : Report → Io Report)
      → Listed all rep
      → ((all' : List RowError) (rep' : Report) (w : World)
          → Listed all' rep'
          → OnRet (λ r _. Upserts vrs all' r) (more rep' w))
      → (stop : Bool) (w : World)
      → OnRet (λ r _. Upserts (vr ∷ vrs) all r) (next_row upsert vr rep more stop w)
  next_row-Upserts vr vrs all rep more h k true w = stopped (vr ∷ vrs) all rep h
  next_row-Upserts vr vrs all rep more h k false w =
      OnRet-after (λ _ _. Unit) (λ r _. Upserts (vr ∷ vrs) all r) (attempt (upsert vr.q) w)
        (λ created. more (count_row vr created rep))
        (OnRet-always (λ _ _. Unit) (attempt (upsert vr.q) w) λ _ _. tt)
        λ created w1 _.
          OnRet-weaken (λ r _. Upserts vrs (all ++ with_failed vr created) r)
            (λ r _. Upserts (vr ∷ vrs) all r) (more (count_row vr created rep) w1)
            (k (all ++ with_failed vr created) (count_row vr created rep) w1
              (count_row-Listed vr created all rep h))
            λ r _ u. one_more vr vrs created all r u

  pub upsert_rows-Upserts :
      (vrs : List ValidRow) (all : List RowError) (rep : Report) (w : World)
      → Listed all rep
      → OnRet (λ r _. Upserts vrs all r) (upsert_rows upsert vrs rep w)
  unfolding upsert_rows cancelled
  upsert_rows-Upserts [] all rep w h = stopped [] all rep h
  upsert_rows-Upserts (vr ∷ vrs) all rep w h =
      next_row-Upserts vr vrs all rep (upsert_rows upsert vrs) h
        (λ all' rep' w'. upsert_rows-Upserts vrs all' rep' w') _ _
