-- ===== src/Examples/Adapters.antt =====
-- The adapters of the AI services, and configurations.
use coeus.Prelude.{
  ℕ, ◌≡◌, ◌↔◌, refl, String, Char, false, none, ok, List, [], ◌∷◌, pos, OnRet, inl, str_eq-apart,
  is_space,
}
use coeus.Domain.Types.{Float, Vector}
use coeus.Storage.World.{Io, pure}
use coeus.Dto.Labels.{derive_answer_refs}
use coeus.Ai.Fence.{strip_code_fence}
use coeus.Ai.Embedder.{Embedding, embed_batch}
use coeus.Ai.Embedder.Aligned.{IsAligned, embed_batch-IsAligned}
use coeus.Ai.Extractor.{assign_choice_ids}
use coeus.Ai.Extractor.Choices.{assign_choice_ids-derive_answer_refs}
use coeus.Config.{Config, validate}
use coeus.Config.Overrides.{load}
use coeus.Config.Accepted.{IsReadable, IsStartable, load-IsReadable}
use coeus.Examples.Data.{world}

abbrev item : ℕ → Vector → Embedding
item i v = record { index = pos i; embedding = v }

-- The answer is not in the order of the texts.
abbrev items : List Embedding
items = item 1 (pos 8 ∷ []) ∷ item 0 (pos 7 ∷ []) ∷ []

abbrev answers : List String → Io (List Embedding)
answers texts = pure items

abbrev same_number : Float → Float
same_number x = x

embed_batch-IsAligned_example :
    OnRet
      (λ out _. IsAligned same_number 1 ("a" ∷ "b" ∷ []) items out)
      (embed_batch same_number 1 answers ("a" ∷ "b" ∷ []) world)
embed_batch-IsAligned_example =
    embed_batch-IsAligned same_number 1 answers ("a" ∷ "b" ∷ []) world world items refl

unfenced : strip_code_fence "```json\n{}\n``` " ≡ "{}"
unfolding strip_code_fence is_space
unfenced = refl

assign_choice_ids-derive_answer_refs_example :
    derive_answer_refs ("yes" ∷ "no" ∷ []) ("no" ∷ []) "number"
    ≡ record { id = "2"; value = "no" } ∷ []
unfolding assign_choice_ids
assign_choice_ids-derive_answer_refs_example =
    assign_choice_ids-derive_answer_refs ("yes" ∷ "no" ∷ []) "number" 1
      (record { id = "2"; text = "no" }) (inl refl) refl (str_eq-apart "yes" "no" refl, tt)

abbrev pub config : Config
config = record {
  server = record {
    addr = ":8080";
    read_timeout = pos 0;
    write_timeout = pos 0;
    shutdown_timeout = pos 0;
    cors = record {
      allowed_origins = "*" ∷ [];
      allowed_methods = "GET" ∷ [];
      allowed_headers = [];
      expose_headers = [];
      allow_credentials = false;
      max_age = pos 0;
    };
  };
  postgres = record { dsn = ""; max_conns = pos 4; min_conns = pos 1 };
  jwt = record { secret = ""; access_ttl = pos 900; refresh_ttl = pos 900 };
  ai = record {
    vision = record {
      base_url = "";
      api_key = "";
      model = "k";
      timeout = pos 60;
      thinking = false;
    };
    reviewer = record {
      base_url = "";
      api_key = "";
      model = "d";
      timeout = pos 60;
      effort = "max";
    };
    embedder = record { base_url = ""; api_key = ""; model = "e"; dim = pos 1536 };
  };
  pipeline = record {
    extract_max_attempts = 3;
    semantic_threshold = pos 950000;
    reaper_interval = pos 60;
    stale_threshold = 300;
    max_queue_attempts = 3;
  };
  workers = record { count = pos 2 };
  upload = record { max_bytes = pos 100; allowed_mimes = [] };
  import_limits = record { max_rows = pos 20000 };
}

abbrev lower : Char → Char
lower c = c

abbrev plain_text : String → String
plain_text s = s

abbrev unset : String → String
unset name = ""

load-IsReadable_example :
    (((loaded : Config) × (load lower plain_text unset (ok config) ≡ ok loaded))
      ↔ IsReadable lower plain_text unset)
    × ((validate config ≡ none) ↔ IsStartable config)
load-IsReadable_example = load-IsReadable lower plain_text unset config config
