-- ===== src/Handlers/Paging.antt =====
-- parsePaging of internal/httpapi/handlers/questions.go, its like in List of sessions.go, and
-- parseUserPaging of users.go. An int is an int64.
use coeus.Prelude.{
  ℕ, suc, ◌-◌, ◌*◌, String, Option, none, some, ℤ, pos, ltb, if◌then◌else◌, atoi, to_int64,
}

-- c.DefaultQuery
abbrev pub default_query : Option String → String → String
default_query none d = d
default_query (some s) d = s

pub record Paging : Type 0 where
  pub page : ℕ
  pub per_page : ℕ
  pub offset : ℤ

-- if page < 1 { page = 1 }
unfoldable pub clamp_page : ℤ → ℕ
clamp_page (pos (suc n)) = suc n
clamp_page _ = 1

-- if perPage < 1 || perPage > 100 { perPage = 20 }
unfoldable pub reset_per_page : ℤ → ℕ
reset_per_page (pos (suc n)) = if ltb 100 (suc n) then 20 else suc n
reset_per_page _ = 20

-- if perPage < 1 { perPage = 20 }; if perPage > 100 { perPage = 100 }
unfoldable pub clamp_per_page : ℤ → ℕ
clamp_per_page (pos (suc n)) = if ltb 100 (suc n) then 100 else suc n
clamp_per_page _ = 20

abbrev paging : ℕ → ℕ → Paging
paging page per_page = record {
  page = page;
  per_page = per_page;
  offset = to_int64 ((page - 1) * per_page);
}

unfoldable pub parse_paging : Option String → Option String → Paging
unfolding atoi clamp_page reset_per_page
parse_paging page per_page =
    paging (clamp_page (atoi (default_query page "1")).0)
      (reset_per_page (atoi (default_query per_page "20")).0)

unfoldable pub parse_user_paging : Option String → Option String → Paging
unfolding atoi clamp_page clamp_per_page
parse_user_paging page per_page =
    paging (clamp_page (atoi (default_query page "1")).0)
      (clamp_per_page (atoi (default_query per_page "20")).0)
