-- ===== src/Examples/Api.antt =====
-- Requests to the routes.
use coeus.Prelude.{true, none, ok, err, [], ◌∷◌, pos, final, ◌<◌}
use coeus.Domain.Errors.{plain}
use coeus.Storage.World.{pure, throw}
use coeus.Http.Routes.{Route}
use coeus.Handlers.Users.{PathId}
use coeus.Api.{Server, serve}
use coeus.Api.Served.{Served, serve-Served}
use coeus.Storage.Keeps.{Keeps-pure, Keeps-throw}
use coeus.Storage.Users.Admins.{admins}
use coeus.Api.Lockout.Requests.{Apart, serve-admins}
use coeus.Examples.Accounts.{users-UniqueIds, two_admins}
use coeus.Examples.Data.{world}

abbrev server : Server
server = record {
  verify = λ token. ok (record {
    user_id = 1;
    role = "admin";
    active = true;
    token_version = 3;
    expires_at = 900;
    issued_at = 0;
  });
  signed_string = λ c secret. ok "t";
  jwt_mgr = record { secret = "s"; access_ttl = 900 };
  hash_password = λ p. ok p;
  verify_password = λ hash p. true;
  generate = pure "new";
  rehash = λ p. pure p;
  ping = throw (plain "down");
  lower = λ c. c;
  json = λ xs. "";
  sha256_hex = λ s. s;
  is_email = λ s. true;
  show_uuid = λ n. "u";
  detect_content_type = λ file. "image/png";
  decode_config = λ file. none;
  upload_cfg = record { max_bytes = pos 100; allowed_mimes = "image/png" ∷ [] };
  embedder = none;
  batch_embedder = none;
  csv_records = λ file. [];
  open_workbook = λ file. err (plain "not a workbook");
  max_rows = 100;
}

serve-Served_example :
    Served server "Bearer t" Route.user_reset_password 3 world
      (serve server "Bearer t" Route.user_reset_password 3 world)
serve-Served_example = serve-Served server "Bearer t" Route.user_reset_password 3 world

abbrev other : PathId
other = record { text = "v"; value = 2 }

server-Apart : Apart server
server-Apart = record {
  generates = λ us. Keeps-pure "new";
  rehashes = λ us p. Keeps-pure p;
  pings = λ us. Keeps-throw (plain "down");
  embeds = λ us. tt;
  batches = λ us. tt;
}

serve-admins_example : 0 < admins (final (serve server "Bearer t" Route.user_delete other world)).db
serve-admins_example =
    serve-admins server server-Apart "Bearer t" Route.user_delete other world users-UniqueIds
      two_admins
