-- ===== src/Config.antt =====
-- internal/config/config.go. A duration is a number of nanoseconds.
-- The children hold the overrides from the environment, and when a configuration is accepted.
pub mod Overrides
pub mod Accepted
use coeus.Prelude.{
  String, Char, Bool, ◌&&◌, Option, none, some, Result, List, any, str_eq, map_runes, ℤ,
  if◌then◌else◌,
}
use coeus.Pipeline.Ports.{PipelineConfig}
use coeus.Domain.Errors.{GoError, plain}

abbrev pub Duration : Type 0
Duration = ℤ

pub record CorsConfig : Type 0 where
  pub allowed_origins : List String
  pub allowed_methods : List String
  pub allowed_headers : List String
  pub expose_headers : List String
  pub allow_credentials : Bool
  pub max_age : Duration

pub record ServerConfig : Type 0 where
  pub addr : String
  pub read_timeout : Duration
  pub write_timeout : Duration
  pub shutdown_timeout : Duration
  pub cors : CorsConfig

pub record PostgresConfig : Type 0 where
  pub dsn : String
  pub max_conns : ℤ
  pub min_conns : ℤ

pub record JwtConfig : Type 0 where
  pub secret : String
  pub access_ttl : Duration
  pub refresh_ttl : Duration

pub record VisionConfig : Type 0 where
  pub base_url : String
  pub api_key : String
  pub model : String
  pub timeout : Duration
  pub thinking : Bool

pub record ReviewerConfig : Type 0 where
  pub base_url : String
  pub api_key : String
  pub model : String
  pub timeout : Duration
  pub effort : String

pub record EmbedderConfig : Type 0 where
  pub base_url : String
  pub api_key : String
  pub model : String
  pub dim : ℤ

pub record AiConfig : Type 0 where
  pub vision : VisionConfig
  pub reviewer : ReviewerConfig
  pub embedder : EmbedderConfig

pub record WorkersConfig : Type 0 where
  pub count : ℤ

pub record UploadConfig : Type 0 where
  pub max_bytes : ℤ
  pub allowed_mimes : List String

pub record ImportConfig : Type 0 where
  pub max_rows : ℤ

pub record Config : Type 0 where
  pub server : ServerConfig
  pub postgres : PostgresConfig
  pub jwt : JwtConfig
  pub ai : AiConfig
  pub pipeline : PipelineConfig
  pub workers : WorkersConfig
  pub upload : UploadConfig
  pub import_limits : ImportConfig

abbrev pub wildcard : String → Bool
wildcard origin = str_eq origin "*"

-- `none` is a nil error.
unfoldable pub validate : Config → Option GoError
validate c =
    if str_eq c.postgres.dsn ""
    then some (plain "postgres.dsn is required (set COEUS_POSTGRES_DSN)")
    else if str_eq c.jwt.secret ""
    then some (plain "jwt.secret is required (set COEUS_JWT_SECRET)")
    else if str_eq c.ai.vision.api_key ""
    then some (plain "ai.vision.api_key is required (set COEUS_AI_VISION_API_KEY)")
    else if str_eq c.ai.reviewer.api_key ""
    then some (plain "ai.reviewer.api_key is required (set COEUS_AI_REVIEWER_API_KEY)")
    else if c.server.cors.allow_credentials && any wildcard c.server.cors.allowed_origins
    then some (
        plain
          "server.cors: allow_credentials cannot be combined with wildcard origin \"*\" (set COEUS_CORS_ALLOWED_ORIGINS to specific origins)")
    else none

module _ (lower : Char → Char) where
  -- A map into Bool, asked for by its keys; a missing key is false.
  unfoldable pub allowed_mimes_map : UploadConfig → String → Bool
  allowed_mimes_map cfg key = any (λ mime. str_eq (map_runes lower mime) key) cfg.allowed_mimes
