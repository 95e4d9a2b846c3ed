-- ===== src/Lib.antt =====
-- Coeus takes photographs of exam sheets, extracts their questions with an AI service, stores each
-- question once, lets experts correct them, and imports question banks from CSV and XLSX files.
--
-- The parts, and the files that model them (paths from the repository's root):
--   Domain      internal/domain: errors and their HTTP status, the records of questions, sessions,
--               images and jobs, normalization and hashing, validation of drafts.
--   Storage     internal/storage: the records of ports.go and the repositories of
--               storage/postgres. World.antt holds the tables (`Db`) and what surrounds them;
--               Users, Jobs, Sessions, Images and Questions have one function per method of
--               UserRepo, JobQueue, SessionRepo, ImageRepo and QuestionRepo, named after it
--               (`update_user` is UserRepo.Update, `claim` is JobQueue.Claim). Keeps, Reads and
--               Spends hold the rules by which invariants, reads and looks at the context are
--               followed through a run.
--   Dto         internal/httpapi/dto: the wire records and the labels of choices.
--   Importer    internal/importer: file kinds, rows, drafts, embeddings, upserts and the report.
--   Pipeline    internal/pipeline: the steps of one job, from its image to verified questions, and
--               the loops of one worker and of the reaper.
--   Http        internal/auth and the guards of internal/httpapi/middleware.go: tokens, generated
--               passwords, AuthMiddleware, RoleGuard, SessionWindow, the guards of
--               each route of internal/httpapi/server.go, and the handlers of
--               internal/httpapi/handlers/auth.go.
--   Handlers    the other handlers of internal/httpapi/handlers: paging, users, sessions, images,
--               questions, experts and the import. Each is one function per handler, named after
--               its file and method (`sessions_close` is SessionHandler.Close).
--   Api         registerRoutes of internal/httpapi/server.go: each route's handler behind its guards
--               (`serve`), and the readiness probe.
--   Config      internal/config: the records, the overrides from the environment, Load, Validate.
--   Ai          internal/ai: what the adapters of the extractor, the verifier and the embedder make
--               of the answers of the models, and the image enhancer.
--   Runtime, Startup  internal/storage/postgres/pool.go, internal/app/wire.go and the start in
--               cmd/coeus/main.go, with the images, connections and pools that the process holds.
--   Prelude     what all parts share: effects, lists, text and integers.
--   Examples    runs on concrete inputs.
--
-- How the parts interact. A repository call is a run `Io A` from a `World` to a result or an error
-- with the world it ends in. Each SQL statement is one round trip, which the world may let fail
-- (`faults`), so every early return of the Go code is a branch of the model; a transaction restores
-- the tables where it ends in an error. Constraints, cascades and defaults of the migrations are
-- part of the statement that meets them. `left` counts the looks at the context before it is
-- cancelled. The pipeline and the importer call the repositories as the Go code does; the AI
-- services, the hash, the case folding, the JWT library, the random source, the CSV, XLSX, JSON and
-- YAML readers, the image decoders and the content sniffer are parameters. A handler is a run that
-- ends in a status with a body, or in the status and the error of an early return.
--
-- Numbers. A uuid and an instant are natural numbers, a float64 is a count of millionths, int64
-- wrap-around is written out. Where the code compares the text of an id (Update and Delete of
-- UserRepo), the text stands beside the uuid that the database reads in it (`Spelling`, `PathId`).
-- Rows of the same time come out of a descending ORDER BY in the table's order, which is one of the
-- orders that the database may give. Recursion on fuel: the embedding loop gets one unit for each row and
-- drops a chunk in every round, the digits of a number and the letters of a label get as many
-- units as the number, which every round divides. The loops of a worker have no end of their own:
-- their fuel is the number of rounds looked at.
--
-- Not modelled: interleavings of concurrent transactions and of goroutines, the request log and CORS,
-- the prompts, logging, panics, and the shutdown of the HTTP server. A path or a
-- query that holds no well-formed uuid is left out, since ids are numbers. The random jitter of the
-- backoff is left out, its center is kept.
pub mod Startup
pub mod Runtime
pub mod Api
pub mod Prelude
pub mod Domain
pub mod Storage
pub mod Dto
pub mod Importer
pub mod Pipeline
pub mod Http
pub mod Config
pub mod Ai
pub mod Handlers
pub mod Examples
