-- ===== src/Config/Accepted.antt =====
-- Which environments Load of internal/config/config.go takes, and which configurations Validate
-- accepts.
use coeus.Prelude.{
  ◌≡◌, ◌≢◌, ◌↔◌, refl, String, Char, true, false, none, Result, ok, err, List, [], ◌∷◌, any, All,
  is_empty, str_eq-apart, apart-str_eq, arith, ◌⊎◌, inl, inr, Bool-cases, Result-cases,
}
use coeus.Domain.Errors.{GoError}
use coeus.Config.{Config, validate, wildcard}
use coeus.Config.Overrides.{
  checked, in_context, ◌then_override◌, read_flag, read_effort, read_int, apply_env_overrides, load,
  thinking, effort, workers, credentials, import_rows, set_thinking, set_effort, set_workers,
  set_credentials, set_max_rows, expected, not_a_number, secrets, reviewer, addresses, origins,
}

-- A variable is unset, or holds what its reader takes.
abbrev pub Readable : {A : Type 0} → (String → Result String A) → String → Type 0
Readable {A} read v = (is_empty v ≡ true) ⊎ ((a : A) × (read v ≡ ok a))

abbrev Succeeds : Result GoError Config → Type 0
Succeeds r = (c : Config) × (r ≡ ok c)

module _ {A : Type 0} (read : String → Result String A) (refusal : String → String → GoError)
    (f : A → Config → Config) (v : String) where
  Succeeds-checked : (c : Config) → Readable read v → Succeeds (checked v read refusal f c)
  Succeeds-checked c (inl empty) = rw empty (c, refl)
  Succeeds-checked c (inr (a, good)) = elim (Bool-cases (is_empty v)) [
    | inl empty ↦ rw empty (c, refl)
    | inr set ↦ rw (set, good) (f a c, refl)
  ]

  checked-Readable : (c : Config) → Succeeds (checked v read refusal f c) → Readable read v
  checked-Readable c (d, e) = elim (Bool-cases (is_empty v)) [
    | inl empty ↦ inl empty
    | inr set ↦ elim (Result-cases (read v)) [
      | inl (a, good) ↦ inr (a, good)
      | inr (reason, bad) ↦ absurd (ground arith)
    ]
  ]

  checked_iff : (c : Config) → Succeeds (checked v read refusal f c) ↔ Readable read v
  checked_iff c = (checked-Readable c, Succeeds-checked c)

-- A chain succeeds where its first part and the override behind it do.
then_iff :
    (R S : Type 0) (r : Result GoError Config) (f : Config → Result GoError Config)
    → (Succeeds r ↔ R)
    → ((c : Config) → Succeeds (f c) ↔ S)
    → Succeeds (r then_override f) ↔ (R × S)
then_iff R S (ok c) f h k = (λ s. (h.0 (c, refl), (k c).0 s), λ rs. (k c).1 rs.1)
then_iff R S (err e) f h k =
    (λ s. absurd (ground arith), λ rs. let (c, bad) = h.1 rs.0 in absurd (ground arith))

in_context_iff :
    (context : String) (r : Result GoError Config) → Succeeds (in_context context r) ↔ Succeeds r
in_context_iff context (ok c) = (λ s. s, λ s. s)
in_context_iff context (err e) = (λ s. absurd (ground arith), λ s. absurd (ground arith))

-- What Validate asks for
pub record IsStartable (c : Config) : Type 0 where
  pub dsn : c.postgres.dsn ≢ ""
  pub secret : c.jwt.secret ≢ ""
  pub vision_key : c.ai.vision.api_key ≢ ""
  pub reviewer_key : c.ai.reviewer.api_key ≢ ""
  pub no_wildcard :
      c.server.cors.allow_credentials ≡ true → All (λ o. o ≢ "*") c.server.cors.allowed_origins

any-All : (os : List String) → any wildcard os ≡ false → All (λ o. o ≢ "*") os
any-All [] h = tt
any-All (o ∷ os) h = (str_eq-apart o "*" (ground arith), any-All os (ground arith))

All-any : (os : List String) → All (λ o. o ≢ "*") os → any wildcard os ≡ false
All-any [] h = refl
All-any (o ∷ os) (h, hs) = ground (arith, apart-str_eq o "*" h, All-any os hs)

validate-IsStartable : (c : Config) → validate c ≡ none → IsStartable c
unfolding validate
validate-IsStartable c e = record {
  dsn = str_eq-apart c.postgres.dsn "" (ground arith);
  secret = str_eq-apart c.jwt.secret "" (ground arith);
  vision_key = str_eq-apart c.ai.vision.api_key "" (ground arith);
  reviewer_key = str_eq-apart c.ai.reviewer.api_key "" (ground arith);
  no_wildcard = λ on. any-All c.server.cors.allowed_origins (ground arith);
}

IsStartable-validate : (c : Config) → IsStartable c → validate c ≡ none
unfolding validate
IsStartable-validate c s = elim (Bool-cases c.server.cors.allow_credentials) [
  | inr off ↦
      rw
        (
          apart-str_eq c.postgres.dsn "" s.dsn,
          apart-str_eq c.jwt.secret "" s.secret,
          apart-str_eq c.ai.vision.api_key "" s.vision_key,
          apart-str_eq c.ai.reviewer.api_key "" s.reviewer_key,
          off,
        )
        refl
  | inl on ↦
      rw
        (
          apart-str_eq c.postgres.dsn "" s.dsn,
          apart-str_eq c.jwt.secret "" s.secret,
          apart-str_eq c.ai.vision.api_key "" s.vision_key,
          apart-str_eq c.ai.reviewer.api_key "" s.reviewer_key,
          on,
          All-any c.server.cors.allowed_origins (s.no_wildcard on),
        )
        refl
]

module _ (lower : Char → Char) (quote getenv : String → String) where
  -- The five variables that are read as a flag, a level or a number
  pub record IsReadable : Type 0 where
    pub thinking_flag : Readable (read_flag lower) (getenv "COEUS_AI_VISION_THINKING")
    pub effort_level : Readable (read_effort lower) (getenv "COEUS_AI_REVIEWER_EFFORT")
    pub workers_count : Readable read_int (getenv "COEUS_WORKERS_COUNT")
    pub credentials_flag : Readable (read_flag lower) (getenv "COEUS_CORS_ALLOW_CREDENTIALS")
    pub max_rows : Readable read_int (getenv "COEUS_IMPORT_MAX_ROWS")

  thinking-Readable :
      (c : Config)
      → Succeeds (thinking lower quote getenv c)
        ↔ Readable (read_flag lower) (getenv "COEUS_AI_VISION_THINKING")
  thinking-Readable c =
      checked_iff (read_flag lower) (expected lower quote getenv "COEUS_AI_VISION_THINKING")
        set_thinking (getenv "COEUS_AI_VISION_THINKING") c

  effort-Readable :
      (c : Config)
      → Succeeds (effort lower quote getenv c)
        ↔ Readable (read_effort lower) (getenv "COEUS_AI_REVIEWER_EFFORT")
  effort-Readable c =
      checked_iff (read_effort lower) (expected lower quote getenv "COEUS_AI_REVIEWER_EFFORT")
        set_effort (getenv "COEUS_AI_REVIEWER_EFFORT") c

  workers-Readable :
      (c : Config)
      → Succeeds (workers lower quote getenv c) ↔ Readable read_int (getenv "COEUS_WORKERS_COUNT")
  workers-Readable c =
      checked_iff read_int (not_a_number lower quote getenv "COEUS_WORKERS_COUNT") set_workers
        (getenv "COEUS_WORKERS_COUNT") c

  credentials-Readable :
      (c : Config)
      → Succeeds (credentials lower quote getenv c)
        ↔ Readable (read_flag lower) (getenv "COEUS_CORS_ALLOW_CREDENTIALS")
  credentials-Readable c =
      checked_iff (read_flag lower) (expected lower quote getenv "COEUS_CORS_ALLOW_CREDENTIALS")
        set_credentials (getenv "COEUS_CORS_ALLOW_CREDENTIALS") c

  import_rows-Readable :
      (c : Config)
      → Succeeds (import_rows lower quote getenv c)
        ↔ Readable read_int (getenv "COEUS_IMPORT_MAX_ROWS")
  import_rows-Readable c =
      checked_iff read_int (not_a_number lower quote getenv "COEUS_IMPORT_MAX_ROWS") set_max_rows
        (getenv "COEUS_IMPORT_MAX_ROWS") c

  abbrev FiveReadable : Type 0
  FiveReadable =
      (((Readable (read_flag lower) (getenv "COEUS_AI_VISION_THINKING")
            × Readable (read_effort lower) (getenv "COEUS_AI_REVIEWER_EFFORT"))
          × Readable read_int (getenv "COEUS_WORKERS_COUNT"))
        × Readable (read_flag lower) (getenv "COEUS_CORS_ALLOW_CREDENTIALS"))
      × Readable read_int (getenv "COEUS_IMPORT_MAX_ROWS")

  chain_iff : (c : Config) → Succeeds (apply_env_overrides lower quote getenv c) ↔ FiveReadable
  unfolding apply_env_overrides
  chain_iff c =
      then_iff _ _ _ (import_rows lower quote getenv)
        (then_iff _ _ _ (λ d. credentials lower quote getenv (origins lower quote getenv d))
          (then_iff _ _ _ (λ d. workers lower quote getenv (addresses lower quote getenv d))
            (then_iff _ _ (thinking lower quote getenv (secrets lower quote getenv c))
              (λ d. effort lower quote getenv (reviewer lower quote getenv d)) (thinking-Readable _)
              (λ d. effort-Readable _))
            (λ d. workers-Readable _))
          (λ d. credentials-Readable _))
        import_rows-Readable

  apply_iff : (c : Config) → Succeeds (apply_env_overrides lower quote getenv c) ↔ IsReadable
  apply_iff c = (
    λ s.
        let ((((a, b), d), e), g) = (chain_iff c).0 s in
        record {
          thinking_flag = a;
          effort_level = b;
          workers_count = d;
          credentials_flag = e;
          max_rows = g;
        },
    λ r.
        (chain_iff c).1
          ((((r.thinking_flag, r.effort_level), r.workers_count), r.credentials_flag), r.max_rows),
  )

  load_iff :
      (c : Config)
      → Succeeds (load lower quote getenv (ok c))
        ↔ Succeeds (apply_env_overrides lower quote getenv c)
  unfolding load
  load_iff c = in_context_iff "apply env overrides" (apply_env_overrides lower quote getenv c)

  -- Load succeeds, on an embedded file that parses, exactly where each of the five variables that
  -- hold a flag, a level or a number is unset or readable; and Validate accepts a configuration
  -- exactly where it has a DSN, a secret and the keys of the vision and the reviewer model, and
  -- allows credentials only without the wildcard among its origins.
  pub load-IsReadable :
      (c d : Config)
      → (((loaded : Config) × (load lower quote getenv (ok c) ≡ ok loaded)) ↔ IsReadable)
        × ((validate d ≡ none) ↔ IsStartable d)
  load-IsReadable c d = (
    (λ s. (apply_iff c).0 ((load_iff c).0 s), λ r. (load_iff c).1 ((apply_iff c).1 r)),
    (validate-IsStartable d, IsStartable-validate d),
  )
