-- ===== src/Lib.antt =====
-- The backend of aime (deployables/backend, in Go): accounts with prepaid credit, devices that log in
-- by a signed challenge, encrypted backups in chains of a full file and its deltas, and calls of
-- embedding and reranking models, all on one PostgreSQL database.
--
-- The handlers (internal/httpapi) decode a request, ask the store (internal/store) for statements and
-- transactions, ask the ledger (internal/billing) what a call costs, and keep backup files under one
-- directory (internal/blobs). The store settles what an account owes for its stored bytes inside the
-- transactions that change them. The model follows these layers:
--
--   Base      what all parts share: Boolean tests, rows of a table as lists, Go's int64 with its
--             wrap-around, PostgreSQL's BIGINT and INTEGER bounds, byte strings, decimal numbers as
--             strconv reads and writes them (Base/Decimal), and float64 as a parameter (Base/Float;
--             Base/Rational puts exact fractions in its place for tests).
--   Store     internal/store. Schema has the tables of cmd/server/migrations and the row types. Query
--             is pool.Exec, pool.QueryRow, Begin, Commit and Rollback: a query takes a connection
--             (tables, clock, which of the next round trips fail) to a result and a connection.
--             Billing is billing.go, Backups backups.go with Backups/Transactions for CreateBackup,
--             DeleteBackup and PruneBackups, Accounts accounts.go, Devices devices.go, Auth auth.go
--             and enrollments.go, Usage UsageSummary, Maintenance janitor.go and stats.go. The
--             other files below Usage, Backups and Billing are proofs. Calls is a history of calls of the store, each at its own time
--             and with its own faults; Sessions is the abstract map that the table of sessions stands
--             for, with calls of the store beside it.
--   Auth      internal/auth, over SHA-256, Argon2id and ML-DSA-65 as parameters.
--   Billing   internal/billing, and Kind and Info of internal/encode/encode.go.
--   Config    internal/config.
--   Blobs     internal/blobs. Paths is resolve with what it uses of path/filepath, Disk the other
--             operations but Sweep, which is Sweep; the other files below Blobs are proofs.
--   Encode    internal/encode. Batch is buildBatch, Onnx openModel and the files of a model, Infer the
--             runs, Embed, Rerank and the pooling of onnx.go, Open is Open and openONNX, Stub stub.go;
--             Layout, Answers and Embedded are proofs.
--   Http      internal/httpapi. World is what handlers work on and how they return early (respond.go,
--             RequireAuth of middleware.go). Login is auth.go, Account account.go, Devices
--             devices.go, Backups and Uploads backup.go, Infer infer.go with the limits of
--             internal/encode/encode.go, Encoding embed.go and rerank.go, Rank the order of hits,
--             Usage handleGetUsage, Limiter ratelimit.go with clientIP in Client, Router the
--             table of router.go, Health health.go.
--             Slots is acquireUpload again, in the atomic steps that requests interleave. The other
--             files below Http are proofs.
--   Server    the background loops of cmd/server/main.go, over the store and the blobs.
--   Tests     with the files below it and Store/Tests: the model on small data.
--
-- A function has the name of the Go function in snake case (CreateBackup is create_backup,
-- handleVerify is handle_verify); a statement of its own has a name for what it does (insert_backup).
--
-- How the program is taken:
-- * A statement is one step, and so is a transaction: row locks are the only order between calls that
--   the code relies on, and calls on one account hold that account's row. The cap on the bytes of all
--   accounts together is not under a common lock; it is stated for calls one after another.
-- * A failed round trip changes nothing, at Commit as well, and a transaction that ends in an error
--   leaves the tables as they were.
-- * Ids come from a counter for each table. A rolled back insert gives its number back here, which in
--   PostgreSQL leaves a gap.
-- * Times are nanoseconds on one axis; PostgreSQL keeps microseconds. Texts are bytes. The number in
--   the text of an error is left out.
-- * What a client sends, and what the clock, the random source, the file system, the models and the
--   waits for a slot answer, are arguments. A request that is cancelled in the middle of a statement
--   is a failed round trip; where writeInferError then stays silent, the model answers the 500 of a
--   failed statement, to a client that is gone.
-- * The disk is a list of entries by absolute path. The walk of a sweep goes over the entries that
--   stand there when it starts.
-- * Every function here is total by structural recursion. Only the digits of a number are printed on
--   fuel, one more than the number itself, which Base/Decimal shows to be enough.
-- * float32 and float64 are parameters of the encoder; a vector in a response is given by its bits.
--   The ONNX runtime and the tokenizer answer as arguments say.
--
-- Not modelled: internal/metrics but for the counters that handlers and loops raise; Recover and
-- AccessLog of middleware.go, which log and count; logging; the start, the signals and the tickers of
-- cmd/server; cmd/demo and cmd/smoke, which are clients; frontends and deployment.
pub mod Base
pub mod Store
pub mod Auth
pub mod Billing
pub mod Config
pub mod Blobs
pub mod Encode
pub mod Http
pub mod Server
pub mod Tests
