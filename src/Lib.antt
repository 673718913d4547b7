-- ===== src/Lib.antt =====
-- LogStream, a log aggregation service in Go: services post log events over HTTP, a pipeline batches
-- them into MongoDB, queries and statistics are read back, and an alerter follows the errors and
-- notifies a webhook.
--
-- How the parts meet. `Processor` takes a request, wrapped by `Middleware`, and hands its events to
-- `Ingestion`, whose `Submit` validates (`Models`), deduplicates and enqueues. Workers take events
-- from the queue and write batches through `Storage`, which also answers queries. The alerter's
-- dispatcher (`Alert`) evaluates events against the rules it has loaded. `Config` holds the settings,
-- `Metrics` the collectors that all of them report to. `Cmd` puts the parts together into the
-- commands: the ingestor and the alerter, which start, run until a signal and shut down, and a load
-- generator.
--
-- Which file models what (paths in the repository):
--   Models              internal/models/log.go: LogLevel.Valid as `valid`, LogEvent.Validate as
--                       `validate`; an event comes back beside the error
--   Config              internal/config/config.go: `default`, `load`, `apply_env_overrides`;
--                       Config/Atoi is strconv.Atoi
--   Logger              pkg/logger/logger.go
--   Ingestion           internal/ingestion/pipeline.go: New and Stats; Ingestion/Dedup is
--                       checkAndStoreDedup, Ingestion/Submit is Submit and SubmitBatch,
--                       Ingestion/Worker is one round of worker, Ingestion/System is Start, the
--                       workers, depthScraper, cancellation and Stop as a step relation;
--                       Ingestion/Buffer is an abstract buffer and Ingestion/Submit/Intake an
--                       intake with a memory that has no order, for comparison
--   Storage             internal/storage/mongo.go: Storage/Setup is New, ensureCollections,
--                       ensureIndexes and Close, Storage/Insert is BulkInsert, Storage/Query is
--                       Query, Storage/Aggregate is AggregateStats, Storage/Buckets is
--                       BucketByMinute, Storage/Watch is what WatchErrors and LoadRules ask for,
--                       Storage/Documents has the bson values and toInt64
--   Alert               internal/alert/dispatcher.go: Alert/Creation is New, Alert/Rules is
--                       refreshRules, Alert/Evaluate is evaluate, Alert/Fire is fire and post,
--                       Alert/Payload is buildSlackPayload,
--                       Alert/Run is Run and rulesRefresher, with the producer of WatchErrors in
--                       internal/storage/mongo.go, as a step relation
--   Http, Middleware    internal/middleware/middleware.go over the part of net/http that it uses, in
--                       the order of cmd/ingestor/main.go
--   Processor           internal/processor/handlers.go
--   Metrics             internal/metrics/metrics.go
--   Cmd                 Cmd/Ingestor is cmd/ingestor/main.go, with the table of routes in
--                       Ingestor/Routes and what is answered to a request in Ingestor/Api;
--                       Cmd/Alerter is cmd/alerter/main.go,
--                       Cmd/Process what both have in common, Cmd/Loadgen is cmd/loadgen/main.go,
--                       with the run of its workers in Loadgen/Run
-- The modules below these are for proofs and are named for what they prove; Base has shared
-- helpers, among them integers, the 64-bit counters, Go's maps and channels; Tests has runs at
-- concrete data.
--
-- How state and effects are modelled. State is a record, and a method a function that returns it
-- changed. A panic is a value (`Base.Outcome`). What acts outside and may fail, as the opening of the
-- store and the commands do, is a function of what has been done so far (`Base.Action`), which it
-- leaves longer; exiting is an error that no later call sees. The concurrency of the pipeline is a relation
-- `Step` between states of the whole, so that a theorem on `Reach` is one on every interleaving; a
-- submission is one step, and so is a round of a worker. Numbers: an int is an integer; an atomic
-- int64 is its bit pattern and wraps around at 2 ^ 64; times in the memory for keys are Unix seconds,
-- natural numbers, and differences are compared by sums; other times are integers in nanoseconds.
-- Loops are over lists; only the printing of a number in decimal has fuel, one more than the number,
-- which is enough since each digit divides it by ten.
--
-- What stands for other code. The MongoDB driver, the YAML and JSON codecs, regular expressions, the
-- circuit breaker, the HTTP client, float64 and readings of clocks are arguments. Hypotheses on them
-- are named: `Storage.Insert.Documented` (an unordered InsertMany reports an identifier for each
-- document, or at most one write error for each), `Alert.Services.executes` (the breaker makes the
-- call and returns its outcome, or refuses and makes none), `Storage.Groups.facets` (the document
-- that a $facet answers with, its numbers in 32 bits where they fit),
-- `Cmd.Alerter.Unwatched.RefusesTimeSeries` (MongoDB has no change streams on time-series collections),
-- `Cmd.Ingestor.Routes.Documented` (gorilla/mux serves the first route that fits, and redirects a path
-- that is not clean).
--
-- Not modelled: log lines; a channel of capacity 0, which is always full here; the overflow of
-- FlushMillis in nanoseconds; failures to encode an answer; the goroutines that listen for HTTP;
-- what makes a signal come; the metrics server's own handler; durations and throughput in the reports
-- of the load generator, and the parsing of flags; the demo page and the files for deployment.
pub mod Base
pub mod Models
pub mod Metrics
pub mod Config
pub mod Storage
pub mod Ingestion
pub mod Alert
pub mod Http
pub mod Logger
pub mod Processor
pub mod Cmd
pub mod Middleware
pub mod Tests
