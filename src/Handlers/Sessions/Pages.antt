-- ===== src/Handlers/Sessions/Pages.antt =====
-- What a page of List of internal/httpapi/handlers/sessions.go holds.
use coeus.Prelude.{
  Perm, Descending, newest_first, newest_first-Perm, newest_first-Descending, ℕ, zero, suc, ◌+◌,
  ◌-◌, ◌*◌, ◌^◌, ◌≤◌, ◌<◌, ◌≡◌, refl, ap, sym, ◌∙◌, String, Option, none, List, [], ◌∷◌, ◌++◌, map,
  map-append, select, take, drop, pos, negsuc, ℤ, ◌==◌, arith, Always, atoi, to_int64,
}
use coeus.Domain.Types.{Uuid, Session}
use coeus.Storage.World.{World, query}
use coeus.Storage.Sessions.{list_sessions}
use coeus.Http.Guards.{Identity}
use coeus.Handlers.Responses.{Sent}
use coeus.Handlers.Paging.{Paging, parse_paging, clamp_page, reset_per_page, default_query}
use coeus.Dto.Responses.{SessionResponse}
use coeus.Handlers.Sessions.{SessionListResponse, sessions_list}

take-nil : {A : Type 0} (n : ℕ) → ◌≡◌ {A = List A} (take n []) []
take-nil zero = refl
take-nil (suc n) = refl

take-add : {A : Type 0} (m n : ℕ) (xs : List A) → take (m + n) xs ≡ take m xs ++ take n (drop m xs)
take-add zero n xs = ground arith
take-add {A} (suc m) n [] = rw (take-nil {A = A} (suc m + n), take-nil {A = A} n) refl
take-add (suc m) n (x ∷ xs) =
    let e : suc m + n ≡ suc (m + n) = omega arith in rw e (ap (λ ys. x ∷ ys) (take-add m n xs))

clamp_page-le : (x : ℤ) → 1 ≤ clamp_page x
unfolding clamp_page
clamp_page-le (pos zero) = omega arith
clamp_page-le (pos (suc n)) = omega arith
clamp_page-le (negsuc n) = omega arith

reset_per_page-le : (x : ℤ) → (1 ≤ reset_per_page x) × (reset_per_page x ≤ 100)
unfolding reset_per_page
reset_per_page-le (pos zero) = (omega arith, omega arith)
reset_per_page-le (pos (suc n)) = ground arith
reset_per_page-le (negsuc n) = (omega arith, omega arith)

to_int64-pos : (n : ℕ) → n < 2 ^ 63 → to_int64 n ≡ pos n
to_int64-pos n lt = ground arith

-- The rows of the pages before page `page`, and those with the rows of the page itself
abbrev pub before : ℕ → ℕ → List Session → List Session
before page per_page rows = take ((page - 1) * per_page) rows

abbrev pub up_to : ℕ → ℕ → List Session → List Session
up_to page per_page rows = take ((page - 1) * per_page + per_page) rows

abbrev pub shown : Session → SessionResponse
shown s = record { id = s.id; expires_at = s.expires_at; status = s.status }

-- The answer with page `p` of the user's sessions
pub record IsPage (user_id : Uuid) (w : World) (p : Paging) (sent : Sent SessionListResponse)
    (w' : World) : Type 0 where
  pub ok_status : sent.status ≡ 200
  pub number : sent.body.page ≡ p.page
  pub size : sent.body.per_page ≡ p.per_page
  pub ordered : List Session
  pub own : Perm ordered (select (λ s. s.user_id == user_id) w.db.sessions)
  pub latest_first : Descending (λ s. s.started_at) ordered
  pub rows :
      map shown (before p.page p.per_page ordered) ++ sent.body.sessions
      ≡ map shown (up_to p.page p.per_page ordered)
  pub unchanged : w'.db ≡ w.db

continues :
    (m n : ℕ) (rows : List Session)
    → map shown (take m rows) ++ map shown (take n (drop m rows)) ≡ map shown (take (m + n) rows)
continues m n rows =
    sym (map-append shown (take m rows) (take n (drop m rows)))
    ∙ ap (map shown) (sym (take-add m n rows))

-- The paging of a request asks for a page from 1 on and for between 1 and 100 rows. Where the page's
-- first row is numbered below 2^63 and the database answers, the answer has the user's sessions of
-- that page, each with its id, end and status, out of all of them in descending order of
-- started_at: behind the rows of the pages before it they make up the rows up to its end.
pub sessions_list-IsPage :
    (caller : Identity) (page per_page : Option String) (w : World)
    → (((parse_paging page per_page).page - 1) * (parse_paging page per_page).per_page < 2 ^ 63)
    → w.faults w.trips ≡ none
    → (1 ≤ (parse_paging page per_page).page)
      × (1 ≤ (parse_paging page per_page).per_page)
      × ((parse_paging page per_page).per_page ≤ 100)
      × Always
          (IsPage caller.claims.user_id w (parse_paging page per_page))
          (sessions_list caller page per_page w)
unfolding sessions_list parse_paging list_sessions query
sessions_list-IsPage caller page per_page w small good =
    let (least, most) = reset_per_page-le (atoi (default_query per_page "20")).0 in
    (
      clamp_page-le (atoi (default_query page "1")).0,
      least,
      most,
      rw (good, to_int64-pos _ small)
          (record {
            ok_status = refl;
            number = refl;
            size = refl;
            ordered = newest_first (λ s. s.started_at) (mine w);
            own = newest_first-Perm (λ s. s.started_at) (mine w);
            latest_first = newest_first-Descending (λ s. s.started_at) (mine w);
            rows = continues _ _ (newest_first (λ s. s.started_at) (mine w));
            unchanged = refl;
          }),
    )
  where
    mine : World → List Session
    mine v = select (λ s. s.user_id == caller.claims.user_id) v.db.sessions
