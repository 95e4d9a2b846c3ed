-- ===== src/Config/Overrides.antt =====
-- applyEnvOverrides and Load of internal/config/config.go. `getenv` is os.Getenv: an unset variable
-- is empty. `quote` is strconv.Quote, the verb %q.
use coeus.Prelude.{
  String, Char, concat, Bool, true, false, not, ◌||◌, Option, none, some, Result, ok, err, List, [],
  ◌∷◌, select, map, is_empty, any, str_eq, map_runes, trim_space, split, atoi, ℤ, if◌then◌else◌,
}
use coeus.Domain.Errors.{GoError, plain, wrap}
use coeus.Config.{
  Config, ServerConfig, CorsConfig, AiConfig, VisionConfig, ReviewerConfig, EmbedderConfig,
}

-- if v := os.Getenv(…); v != "" { … }
abbrev pub unless_unset : {A : Type 0} → String → (String → A → A) → A → A
unless_unset v f a = if is_empty v then a else f v a

abbrev pub with_server : (ServerConfig → ServerConfig) → Config → Config
with_server f c = record c { server = f c.server }

abbrev pub with_cors : (CorsConfig → CorsConfig) → Config → Config
with_cors f c = with_server (λ s. record s { cors = f s.cors }) c

abbrev pub with_ai : (AiConfig → AiConfig) → Config → Config
with_ai f c = record c { ai = f c.ai }

abbrev pub with_vision : (VisionConfig → VisionConfig) → Config → Config
with_vision f c = with_ai (λ a. record a { vision = f a.vision }) c

abbrev pub with_reviewer : (ReviewerConfig → ReviewerConfig) → Config → Config
with_reviewer f c = with_ai (λ a. record a { reviewer = f a.reviewer }) c

abbrev pub with_embedder : (EmbedderConfig → EmbedderConfig) → Config → Config
with_embedder f c = with_ai (λ a. record a { embedder = f a.embedder }) c

abbrev pub set_thinking : Bool → Config → Config
set_thinking b = with_vision (λ x. record x { thinking = b })

abbrev pub set_effort : String → Config → Config
set_effort e = with_reviewer (λ x. record x { effort = e })

abbrev pub set_workers : ℤ → Config → Config
set_workers n c = record c { workers = record { count = n } }

abbrev pub set_credentials : Bool → Config → Config
set_credentials b = with_cors (λ x. record x { allow_credentials = b })

abbrev pub set_max_rows : ℤ → Config → Config
set_max_rows n c = record c { import_limits = record { max_rows = n } }

-- A variable that may be refused, with the reason
abbrev pub set_or_refuse :
    {A : Type 0}
    → (String → GoError)
    → (A → Config → Config)
    → Result String A
    → Config
    → Result GoError Config
set_or_refuse refusal f (err reason) c = err (refusal reason)
set_or_refuse refusal f (ok a) c = ok (f a c)

abbrev pub checked :
    {A : Type 0}
    → String
    → (String → Result String A)
    → (String → String → GoError)
    → (A → Config → Config)
    → Config
    → Result GoError Config
checked v read refusal f c = if is_empty v then ok c else set_or_refuse (refusal v) f (read v) c

infixl 5 ◌then_override◌
abbrev pub ◌then_override◌ :
    Result GoError Config → (Config → Result GoError Config) → Result GoError Config
ok c then_override f = f c
err e then_override f = err e

-- Atoi, whose error names the text
abbrev read_number : ℤ × Option String → Result String ℤ
read_number (n, none) = ok n
read_number (n, some reason) = err reason

abbrev pub read_int : String → Result String ℤ
read_int v = read_number (atoi v)

-- fmt.Errorf("…: %w", err)
abbrev pub in_context : String → Result GoError Config → Result GoError Config
in_context context (ok c) = ok c
in_context context (err e) = err (wrap context e)

-- The split at commas, each part trimmed, the empty ones left out
unfoldable pub origins_of : String → List String
unfolding split trim_space
origins_of v = select (λ t. not (is_empty t)) (map trim_space (split v b','))

abbrev pub set_origins : List String → CorsConfig → CorsConfig
set_origins [] c = c
set_origins (o ∷ os) c = record c { allowed_origins = o ∷ os }

module _ (lower : Char → Char) where
  unfoldable pub read_flag : String → Result String Bool
  read_flag v =
      let s = map_runes lower v in
      if str_eq s "true" || str_eq s "1"
      then ok true
      else if str_eq s "false" || str_eq s "0"
      then ok false
      else err "true|false|1|0"

  unfoldable pub read_effort : String → Result String String
  read_effort v =
      let e = map_runes lower (trim_space v) in
      if any (λ level. str_eq e level) ("low" ∷ "medium" ∷ "high" ∷ "max" ∷ [])
      then ok e
      else err "low|medium|high|max"

  module _ (quote getenv : String → String) where
    abbrev pub expected : String → String → String → GoError
    expected name v levels = plain (
        concat "invalid "
          (concat name (concat " " (concat (quote v) (concat ": expected " levels)))))

    -- The *NumError of Atoi, wrapped
    abbrev pub not_a_number : String → String → String → GoError
    not_a_number name v reason =
        wrap (concat "invalid " (concat name (concat " " (quote v))))
          (plain (concat "strconv.Atoi: parsing " (concat (quote v) (concat ": " reason))))

    -- The runs of plain assignments between the variables that may be refused
    abbrev pub secrets : Config → Config
    secrets c =
        unless_unset (getenv "COEUS_AI_VISION_BASE_URL")
          (λ v. with_vision (λ x. record x { base_url = v }))
          (unless_unset (getenv "COEUS_AI_VISION_API_KEY")
            (λ v. with_vision (λ x. record x { api_key = v }))
            (unless_unset (getenv "COEUS_JWT_SECRET")
              (λ v d. record d { jwt = record d.jwt { secret = v } })
              (unless_unset (getenv "COEUS_POSTGRES_DSN")
                (λ v d. record d { postgres = record d.postgres { dsn = v } }) c)))

    abbrev pub reviewer : Config → Config
    reviewer c =
        unless_unset (getenv "COEUS_AI_REVIEWER_BASE_URL")
          (λ v. with_reviewer (λ x. record x { base_url = v }))
          (unless_unset (getenv "COEUS_AI_REVIEWER_API_KEY")
            (λ v. with_reviewer (λ x. record x { api_key = v })) c)

    abbrev pub addresses : Config → Config
    addresses c =
        unless_unset (getenv "COEUS_SERVER_ADDR") (λ v. with_server (λ x. record x { addr = v }))
          (unless_unset (getenv "COEUS_AI_EMBEDDER_BASE_URL")
            (λ v. with_embedder (λ x. record x { base_url = v }))
            (unless_unset (getenv "COEUS_AI_EMBEDDER_API_KEY")
              (λ v. with_embedder (λ x. record x { api_key = v })) c))

    abbrev pub origins : Config → Config
    origins c =
        unless_unset (getenv "COEUS_CORS_ALLOWED_ORIGINS")
          (λ v. with_cors (set_origins (origins_of v))) c

    -- The variables that may be refused
    abbrev pub thinking : Config → Result GoError Config
    thinking =
        checked (getenv "COEUS_AI_VISION_THINKING") read_flag (expected "COEUS_AI_VISION_THINKING")
          set_thinking

    abbrev pub effort : Config → Result GoError Config
    effort =
        checked (getenv "COEUS_AI_REVIEWER_EFFORT") read_effort
          (expected "COEUS_AI_REVIEWER_EFFORT") set_effort

    abbrev pub workers : Config → Result GoError Config
    workers =
        checked (getenv "COEUS_WORKERS_COUNT") read_int (not_a_number "COEUS_WORKERS_COUNT")
          set_workers

    abbrev pub credentials : Config → Result GoError Config
    credentials =
        checked (getenv "COEUS_CORS_ALLOW_CREDENTIALS") read_flag
          (expected "COEUS_CORS_ALLOW_CREDENTIALS") set_credentials

    abbrev pub import_rows : Config → Result GoError Config
    import_rows =
        checked (getenv "COEUS_IMPORT_MAX_ROWS") read_int (not_a_number "COEUS_IMPORT_MAX_ROWS")
          set_max_rows

    unfoldable pub apply_env_overrides : Config → Result GoError Config
    unfolding read_flag read_effort origins_of
    apply_env_overrides c =
        thinking (secrets c)
        then_override (λ d. effort (reviewer d))
        then_override (λ d. workers (addresses d))
        then_override (λ d. credentials (origins d))
        then_override import_rows

    -- `embedded` is what yaml.Unmarshal makes of the file config.yaml.
    unfoldable pub load : Result GoError Config → Result GoError Config
    unfolding apply_env_overrides
    load (err e) = err (wrap "parse embedded config.yaml" e)
    load (ok cfg) = in_context "apply env overrides" (apply_env_overrides cfg)
