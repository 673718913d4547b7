-- ===== src/Cmd/Ingestor/Api.antt =====
-- What the API of cmd/ingestor/main.go answers to a request: the router, the middleware, and the
-- handlers over the store. A request is served by itself; what it takes from outside is in `Backend`.
pub mod Confined
pub mod Reaches
pub mod Search
pub mod Runs
pub mod Growth
pub mod Acknowledged
pub mod Takes
use distributed_logs_aggrega.Base.{ℕ, String, Option, List, ◌==◌, if◌then◌else◌}
use distributed_logs_aggrega.Base.Int.{ℤ}
use distributed_logs_aggrega.Base.Outcome.{Outcome, returns}
use distributed_logs_aggrega.Metrics.{Collectors}
use distributed_logs_aggrega.Http.{
  Request, Handler, Writer, new_writer, set_header, send_status, write_header, write_body,
  http_error, plain,
}
use distributed_logs_aggrega.Models.{LogEvent, IngestRequest, Time}
use distributed_logs_aggrega.Storage.Documents.{Items}
use distributed_logs_aggrega.Storage.Insert.{when_present}
use distributed_logs_aggrega.Storage.Query
use distributed_logs_aggrega.Storage.Query.{FindQuery, Found}
use distributed_logs_aggrega.Storage.Aggregate.{Doubles, Stats, Aggregated, aggregate_stats}
use distributed_logs_aggrega.Storage.Buckets.{Bucket, Rows, bucket_by_minute}
use distributed_logs_aggrega.Ingestion.{Pipeline}
use distributed_logs_aggrega.Ingestion.Submit.{Reading}
use distributed_logs_aggrega.Middleware.{api}
use distributed_logs_aggrega.Processor
use distributed_logs_aggrega.Processor.{Decoded, ApiWriter, Served, stats_handler, pipeline_stats}
use distributed_logs_aggrega.Cmd.Ingestor.Routes.{
  Endpoint, ingest, ingest_single, query, stats, throughput, health, ready, demo, to_demo, routes,
  Verdict, matched, not_allowed, not_found, moved, Mux,
}

-- The codec of JSON, clocks, the driver, time.ParseDuration, and the file server below `/demo/`.
pub record Backend (ds : Doubles) : Type 0 where
  pub decode_request : String → Decoded IngestRequest
  pub decode_event : String → Decoded LogEvent
  pub clock : ℕ → Reading
  pub ping : Option String
  pub uptime : ℤ
  pub find : FindQuery ds.Double → Found
  pub aggregate : Items ds.Double → Aggregated ds
  pub rows_of : Items ds.Double → Rows ds.Double
  pub format : Time → String
  pub parse : String → Option ℤ
  pub now : Time
  pub serve_file : Request → ApiWriter ds → ApiWriter ds × Outcome (Unit {0})

-- The middleware's collectors are the pipeline's.
abbrev pub on_pipeline : (Collectors → Collectors) → Pipeline → Pipeline
on_pipeline f p = record p { collectors = when_present f p.collectors }

module _ (ds : Doubles) where
  -- `http.Redirect`, without the text of the page
  abbrev pub redirect : String → ℕ → Request → ApiWriter ds → ApiWriter ds
  redirect url code r w =
      let sent : ApiWriter ds =
        write_header (Stats ds) Bucket code (set_header (Stats ds) Bucket "Location" url w) in
      if r.method == "GET" then write_body (Stats ds) Bucket (plain url) sent else sent

module _ (ds : Doubles) (b : Backend ds) where
  abbrev pub file_handler : Request → ApiWriter ds → Pipeline → Served ds
  file_handler r w p = let (w', o) = b.serve_file r w in (w', p, o)

  unfoldable pub handler_of : Endpoint → Handler (Stats ds) Bucket Pipeline
  handler_of ingest r w p = Processor.ingest ds b.clock (b.decode_request r.body) w p
  handler_of ingest_single r w p =
      Processor.ingest_single ds (b.clock 0) (b.decode_event r.body) w p
  handler_of query r w p = Processor.query ds (Query.query ds.Double b.find) b.parse b.now r w p
  handler_of stats r w p =
      stats_handler ds (aggregate_stats ds b.aggregate b.now) b.parse b.now r w p
  handler_of throughput r w p =
      Processor.throughput ds (bucket_by_minute ds.Double ds.truncate b.format b.rows_of) b.parse
        b.now r w p
  handler_of Endpoint.pipeline_stats r w p = pipeline_stats ds w p
  handler_of health r w p = Processor.health ds b.ping b.uptime w p
  handler_of ready r w p = Processor.ready ds w p
  handler_of demo r w p = file_handler r w p
  handler_of to_demo r w p = (redirect ds "/demo/" 302 r w, p, returns tt)

  abbrev pub fresh : ApiWriter ds
  fresh = new_writer (Stats ds) Bucket

  -- Only a request for which a route is found goes through the middleware.
  unfoldable pub answer_by : ℕ → Verdict → Request → Pipeline → Served ds
  answer_by elapsed (matched e) r p =
      api (Stats ds) Bucket Pipeline on_pipeline elapsed (handler_of e) r fresh p
  answer_by elapsed not_allowed r p = (send_status (Stats ds) Bucket 405 fresh, p, returns tt)
  answer_by elapsed not_found r p =
      (http_error (Stats ds) Bucket "404 page not found" 404 fresh, p, returns tt)
  answer_by elapsed (moved url) r p = (redirect ds url 301 r fresh, p, returns tt)

  unfoldable pub answer : Mux → ℕ → Request → Pipeline → Served ds
  answer mux elapsed r p = answer_by elapsed (mux.match routes r.method r.path) r p
