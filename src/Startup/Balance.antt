-- ===== src/Startup/Balance.antt =====
-- What the start of the process leaves open.
use coeus.Prelude.{
  ◌-◌, ◌≡◌, refl, sym, ap, ◌∙◌, String, false, List, [], ◌∷◌, ◌++◌, Result, Result-cases, ok, err,
  Outcome, ret, raise, after, final, settle, select, arith, OnRet, lift, attempt, map_error, ◌>>=◌,
  append_assoc, append-nil, inl, inr,
}
use coeus.Domain.Errors.{GoError, wrap}
use coeus.Config.{Config}
use coeus.Runtime.{Runtime, connected, disconnected}
use coeus.Startup.{
  Pg, MigrationFs, App, app_of, ensure_pgvector_extension, new_pool, pool_opened, pool_closed,
  migrated, apply_migrations, run_migrations, sort_strings, is_sql, behind_migrations, build,
  close_app,
}

-- The same images, connections, pools and libvips are held.
pub record Same (r r' : Runtime) : Type 0 where
  pub images : r'.images ≡ r.images
  pub connections : r'.connections ≡ r.connections
  pub pools : r'.pools ≡ r.pools
  pub vips : r'.vips ≡ r.vips

abbrev same : {r : Runtime} → Same r r
same = record { images = refl; connections = refl; pools = refl; vips = refl }

released : (r : Runtime) → Same r (disconnected (connected r))
released r = record { images = refl; connections = omega arith; pools = refl; vips = refl }

unpooled : (r : Runtime) → Same r (pool_closed (pool_opened (disconnected (connected r))))
unpooled r = record { images = refl; connections = omega arith; pools = omega arith; vips = refl }

-- NewPool fails with what was held before, or holds one more pool.
data Pooled (r : Runtime) : Outcome GoError Runtime (Unit {0}) → Type 0 where
  lost : (e : GoError) (r' : Runtime) → Same r r' → Pooled r (raise e r')
  pooled : Pooled r (ret tt (pool_opened (disconnected (connected r))))

new_pool-Pooled : (pg : Pg) (r : Runtime) → Pooled r (new_pool pg r)
unfolding new_pool ensure_pgvector_extension
new_pool-Pooled pg r = elim (Result-cases pg.connect) [
  | inr (e, down) ↦ rw down (lost _ _ same)
  | inl (a, up) ↦ elim (Result-cases pg.create_extension) [
    | inr (e, bad) ↦ rw (up, bad) (lost _ _ (released r))
    | inl (b, made) ↦ elim (Result-cases pg.parse_config) [
      | inr (e, bad) ↦ rw (up, made, bad) (lost _ _ (released r))
      | inl (c, parsed) ↦ elim (Result-cases pg.new_with_config) [
        | inr (e, bad) ↦ rw (up, made, parsed, bad) (lost _ _ (released r))
        | inl (d, opened) ↦ elim (Result-cases pg.ping) [
          | inr (e, bad) ↦ rw (up, made, parsed, opened, bad) (lost _ _ (unpooled r))
          | inl (u, alive) ↦ rw (up, made, parsed, opened, alive) pooled
        ]
      ]
    ]
  ]
]

module _ (pg : Pg) (fs : MigrationFs) where
  -- A run of the migrations holds what it held, and on success has applied the names in order.
  abbrev Applied : List String → Runtime → Outcome GoError Runtime (Unit {0}) → Type 0
  Applied names r o = Same r (final o) × OnRet (λ _ r'. r'.migrations ≡ r.migrations ++ names) o

  Applied-next :
      (name : String) (names : List String) (r r' : Runtime)
      (o : Outcome GoError Runtime (Unit {0}))
      → Same r r'
      → r'.migrations ≡ r.migrations ++ name ∷ []
      → Applied names r' o
      → Applied (name ∷ names) r o
  Applied-next name names r r' (ret a v) s e (t, f) = (
    record {
      images = t.images ∙ s.images;
      connections = t.connections ∙ s.connections;
      pools = t.pools ∙ s.pools;
      vips = t.vips ∙ s.vips;
    },
    f ∙ (ap (λ xs. xs ++ names) e ∙ append_assoc r.migrations (name ∷ []) names),
  )
  Applied-next name names r r' (raise x v) s e (t, f) = (
    record {
      images = t.images ∙ s.images;
      connections = t.connections ∙ s.connections;
      pools = t.pools ∙ s.pools;
      vips = t.vips ∙ s.vips;
    },
    tt,
  )

  apply_migrations-Applied :
      (names : List String) (r : Runtime) → Applied names r (apply_migrations pg fs names r)
  unfolding apply_migrations
  apply_migrations-Applied [] r = (same, sym (append-nil r.migrations))
  apply_migrations-Applied (name ∷ names) r = elim (Result-cases (fs.read_file name)) [
    | inr (e, unread) ↦ rw unread (same, tt)
    | inl (sql, read) ↦ elim (Result-cases (pg.exec sql)) [
      | inr (e, refused) ↦ rw (read, refused) (same, tt)
      | inl (u, done) ↦
          rw (read, done)
            (Applied-next name names r (migrated name r) _
              (record { images = refl; connections = refl; pools = refl; vips = refl }) refl
              (apply_migrations-Applied names (migrated name r)))
    ]
  ]

  -- How Build ends: with what was held before, or with an App whose Close gives back what it holds.
  pub data Built (cfg : Config) (r : Runtime) : Outcome GoError Runtime App → Type 0 where
    failed : (e : GoError) (r' : Runtime) → Same r r' → Built cfg r (raise e r')
    stands :
        (entries : List String) (r' : Runtime)
        → fs.read_dir ≡ ok entries
        → r'.migrations ≡ r.migrations ++ sort_strings (select is_sql entries)
        → Same r (close_app r')
        → Built cfg r (ret (app_of cfg) r')

  -- The end of Build, behind the pool and the reading of the directory
  behind_migrations-Built :
      (cfg : Config) (r : Runtime) (entries : List String) (o : Outcome GoError Runtime (Unit {0}))
      → fs.read_dir ≡ ok entries
      → r.vips ≡ false
      → Applied (sort_strings (select is_sql entries)) (pool_opened (disconnected (connected r))) o
      → Built cfg r (after (settle o) (behind_migrations pg fs cfg))
  unfolding close_app
  behind_migrations-Built cfg r entries (ret a v) dir off (t, f) = stands entries _ dir f (record {
    images = t.images;
    connections = t.connections ∙ omega arith;
    pools = ap (λ n. n - 1) t.pools ∙ omega arith;
    vips = sym off;
  })
  behind_migrations-Built cfg r entries (raise e v) dir off (t, f) = failed _ _ (record {
    images = t.images;
    connections = t.connections ∙ omega arith;
    pools = ap (λ n. n - 1) t.pools ∙ omega arith;
    vips = t.vips;
  })

  -- Where libvips is not running yet, a Build that fails has given back every connection and pool
  -- that it opened; one that succeeds has applied the SQL files in the order of their names, and
  -- App.Close gives back what it holds.
  pub build-Built : (cfg : Config) (r : Runtime) → r.vips ≡ false → Built cfg r (build pg fs cfg r)
  unfolding build run_migrations
  build-Built cfg r off = from_pool (new_pool pg r) (new_pool-Pooled pg r)
    where
      from_dir :
          (x : Result GoError (List String))
          → fs.read_dir ≡ x
          → Built cfg r (
              after
                (settle (
                  after
                    (map_error
                      (wrap "read migrations dir")
                      (lift x (pool_opened (disconnected (connected r)))))
                    (λ entries. apply_migrations pg fs (sort_strings (select is_sql entries)))))
                (behind_migrations pg fs cfg))
      from_dir (err e) dir = failed _ _ (unpooled r)
      from_dir (ok entries) dir =
          behind_migrations-Built cfg r entries _ dir off
            (apply_migrations-Applied (sort_strings (select is_sql entries)) _)

      from_pool :
          (o : Outcome GoError Runtime (Unit {0}))
          → Pooled r o
          → Built cfg r (
              after
                (map_error (wrap "build pool") o)
                (λ _. attempt (run_migrations pg fs) >>= behind_migrations pg fs cfg))
      from_pool (raise x v) (lost e r' s) = failed _ _ s
      from_pool (ret a v) pooled = from_dir fs.read_dir refl
