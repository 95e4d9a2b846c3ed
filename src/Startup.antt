-- ===== src/Startup.antt =====
-- The start of the process: NewPool and RunMigrations of internal/storage/postgres/pool.go, Build and
-- Close of internal/app/wire.go, and main of cmd/coeus/main.go up to the start of the workers. What
-- pgx and the embedded files answer are arguments.
pub mod Balance
use coeus.Prelude.{
  ℕ, suc, ◌+◌, ◌-◌, String, Char, code, Bool, true, false, not, ◌&&◌, ◌||◌, Option, none, some,
  Result, ok, err, List, [], ◌∷◌, ◌++◌, ltb, ◌==◌, str_eq, negsuc, pos, is_empty, select, concat,
  lift, map_err, attempt, modify, raise, if◌then◌else◌, ◌>>=◌, ◌>>◌, ℤ,
}
use coeus.Domain.Errors.{GoError, wrap}
use coeus.Config.{Config, validate}
use coeus.Pipeline.Worker.{WorkerPool, Goroutine, start_pool}
use coeus.Runtime.{Runtime, Native, deferring, connected, disconnected}

pub record Pg : Type 0 where
  pub connect : Result GoError (Unit {0})
  pub create_extension : Result GoError (Unit {0})
  pub parse_config : Result GoError (Unit {0})
  pub new_with_config : Result GoError (Unit {0})
  pub ping : Result GoError (Unit {0})
  pub exec : String → Result GoError (Unit {0})

-- The embedded directory of migrations
pub record MigrationFs : Type 0 where
  pub read_dir : Result GoError (List String)
  pub read_file : String → Result GoError String

abbrev pub pool_opened : Runtime → Runtime
pool_opened r = record r { pools = r.pools + 1 }

abbrev pub pool_closed : Runtime → Runtime
pool_closed r = record r { pools = r.pools - 1 }

abbrev pub throwing : {A : Type 0} → GoError → Native A
throwing e r = raise e r

abbrev pub done : {A : Type 0} → A → Native A
done a = lift (ok a)

-- An error closes the pool and goes on with its context.
abbrev pub or_close : String → Result GoError (Unit {0}) → Native (Unit {0})
or_close context (ok _) = done tt
or_close context (err e) = do modify pool_closed; throwing (wrap context e)

-- strings.HasSuffix
unfoldable pub has_suffix : String → String → Bool
has_suffix String.[] suffix = str_eq String.[] suffix
has_suffix (String.◌∷◌ c s) suffix =
    let rest = has_suffix s suffix in str_eq (String.◌∷◌ c s) suffix || rest

abbrev pub is_sql : String → Bool
is_sql name = has_suffix name ".sql"

-- sort.Strings; the order of the code points is that of their UTF-8 bytes.
pub str_leb : String → String → Bool
str_leb String.[] t = true
str_leb (String.◌∷◌ c s) String.[] = false
str_leb (String.◌∷◌ c s) (String.◌∷◌ d t) =
    let rest = str_leb s t in ltb (code c) (code d) || (code c == code d && rest)

unfoldable pub insert : String → List String → List String
unfolding str_leb
insert s [] = s ∷ []
insert s (t ∷ ts) = let rest = insert s ts in if str_leb s t then s ∷ t ∷ ts else t ∷ rest

unfoldable pub sort_strings : List String → List String
unfolding insert
sort_strings [] = []
sort_strings (s ∷ ss) = insert s (sort_strings ss)

abbrev pub migrated : String → Runtime → Runtime
migrated name r = record r { migrations = r.migrations ++ name ∷ [] }

module _ (pg : Pg) where
  unfoldable pub ensure_pgvector_extension : Native (Unit {0})
  ensure_pgvector_extension = do
    map_err (wrap "connect") (lift pg.connect)
    modify connected
    deferring disconnected (map_err (wrap "create extension") (lift pg.create_extension))

  unfoldable pub new_pool : Native (Unit {0})
  unfolding ensure_pgvector_extension
  new_pool = do
    map_err (wrap "ensure pgvector extension") ensure_pgvector_extension
    map_err (wrap "parse dsn") (lift pg.parse_config)
    map_err (wrap "create pool") (lift pg.new_with_config)
    modify pool_opened
    or_close "ping db" pg.ping

  module _ (fs : MigrationFs) where
    -- One round of the loop over the names
    abbrev pub apply_migration : String → Native (Unit {0})
    apply_migration name = do
      sql ← map_err (wrap (concat "read migration " name)) (lift (fs.read_file name))
      map_err (wrap (concat "apply migration " name)) (lift (pg.exec sql))
      modify (migrated name)

    unfoldable pub apply_migrations : List String → Native (Unit {0})
    apply_migrations [] = done tt
    apply_migrations (name ∷ names) = do apply_migration name; apply_migrations names

    unfoldable pub run_migrations : Native (Unit {0})
    unfolding apply_migrations sort_strings has_suffix
    run_migrations = do
      entries ← map_err (wrap "read migrations dir") (lift fs.read_dir)
      apply_migrations (sort_strings (select is_sql entries))

-- Of the parts, those whose presence or size the configuration decides
pub record App : Type 0 where
  pub config : Config
  pub embedder : Bool
  pub worker_pool : WorkerPool

-- `for i := 0; i < count; i++`: no worker for a negative count
abbrev workers : ℤ → ℕ
workers (pos n) = n
workers (negsuc n) = 0

unfoldable pub app_of : Config → App
app_of cfg = record {
  config = cfg;
  embedder = not (str_eq cfg.ai.embedder.api_key "");
  worker_pool = record { count = workers cfg.workers.count; started = false; cancellable = false };
}

abbrev pub vips_startup : Runtime → Runtime
vips_startup r = record r { vips = true }

-- App.Close, behind the stop of the workers
unfoldable pub close_app : Runtime → Runtime
close_app r = record r { vips = false; pools = r.pools - 1 }

module _ (pg : Pg) (fs : MigrationFs) where
  abbrev pub behind_migrations : Config → Result GoError (Unit {0}) → Native App
  behind_migrations cfg (err e) = do modify pool_closed; throwing (wrap "run migrations" e)
  behind_migrations cfg (ok _) = do modify vips_startup; done (app_of cfg)

  unfoldable pub build : Config → Native App
  unfolding new_pool run_migrations app_of
  build cfg = do
    map_err (wrap "build pool") (new_pool pg)
    r ← attempt (run_migrations pg fs)
    behind_migrations cfg r

  -- `none` is the exit with 1; the error is only logged.
  abbrev pub started : Result GoError App → Native (Option (App × List Goroutine))
  started (err e) = done none
  started (ok app) =
      let pool = start_pool app.worker_pool in
      done (some (record app { worker_pool = pool.0 }, pool.1))

  abbrev pub accepted : Config → Option GoError → Native (Option (App × List Goroutine))
  accepted cfg (some e) = done none
  accepted cfg none = do app ← attempt (build cfg); started app

  -- `loaded` is config.Load().
  unfoldable pub main : Result GoError Config → Native (Option (App × List Goroutine))
  unfolding build start_pool validate
  main (err e) = done none
  main (ok cfg) = accepted cfg (validate cfg)
