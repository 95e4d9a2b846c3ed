-- ===== src/Examples/Process.antt =====
-- The start of the process, and an image that is enhanced.
use coeus.Prelude.{false, ◌≡◌, refl, true, ok, err, [], ◌∷◌, final, OnRet}
use coeus.Domain.Types.{Bytes}
use coeus.Domain.Errors.{plain}
use coeus.Runtime.{Runtime}
use coeus.Ai.Enhancer.{Vips, enhance}
use coeus.Ai.Enhancer.Released.{supported, enhance-released}
use coeus.Startup.{Pg, MigrationFs, build, sort_strings}
use coeus.Startup.Balance.{Built, build-Built}
use coeus.Examples.Adapters.{config}

abbrev idle : Runtime
idle = record { images = 0; connections = 0; pools = 0; vips = false; migrations = [] }

abbrev vips : Vips Bytes
vips = record {
  decode = λ b. ok b;
  auto_rotate = λ v. ok v;
  thumbnail_with_size = λ w h v. ok v;
  modulate = λ a b c v. ok v;
  extract_band = λ band n v. ok v;
  linear1 = λ a b v. ok v;
  sharpen = λ a b c v. err (plain "sharpen");
  export_jpeg = λ quality v. ok v;
  export_png = λ compression v. ok v;
  export_webp = λ quality v. ok v;
  quoted = λ s. s;
}

enhance-released_example :
    (final (enhance vips (ok tt) (7 ∷ []) "image/png" idle) ≡ idle)
    × OnRet (λ _ _. supported "image/png" ≡ true) (enhance vips (ok tt) (7 ∷ []) "image/png" idle)
enhance-released_example = enhance-released vips (ok tt) (7 ∷ []) "image/png" idle

sorted :
    sort_strings ("0002_core.sql" ∷ "0001_extensions.sql" ∷ [])
    ≡ "0001_extensions.sql" ∷ "0002_core.sql" ∷ []
unfolding sort_strings
sorted = refl

abbrev pg : Pg
pg = record {
  connect = ok tt;
  create_extension = ok tt;
  parse_config = ok tt;
  new_with_config = ok tt;
  ping = ok tt;
  exec = λ sql. ok tt;
}

abbrev files : MigrationFs
files = record {
  read_dir = ok ("0002_core.sql" ∷ "README" ∷ "0001_extensions.sql" ∷ []);
  read_file = λ name. ok "CREATE";
}

build-Built_example : Built pg files config idle (build pg files config idle)
build-Built_example = build-Built pg files config idle refl
