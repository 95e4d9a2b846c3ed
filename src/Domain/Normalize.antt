-- ===== src/Domain/Normalize.antt =====
-- NormalizeQuestion and HashQuestion of internal/domain/question.go. `lower` is unicode.ToLower
-- and `sha256_hex` the hexadecimal SHA-256 of a text.
pub mod Words
pub mod Idempotent
use coeus.Prelude.{String, Char, map_runes, trim_space, fields, join}

module _ (lower : Char → Char) where
  unfoldable pub normalize_question : String → String
  normalize_question s = join (fields (map_runes lower (trim_space s))) " "

unfoldable pub hash_question : (String → String) → String → String
hash_question sha256_hex norm = sha256_hex norm
