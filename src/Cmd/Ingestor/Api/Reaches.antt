-- ===== src/Cmd/Ingestor/Api/Reaches.antt =====
-- Which handler serves a request to each endpoint.
use distributed_logs_aggrega.Base.{ℕ, String, ◌≡◌, refl, false, some, ◌==◌}
use distributed_logs_aggrega.Http.{Request}
use distributed_logs_aggrega.Storage.Aggregate.{Doubles, Stats}
use distributed_logs_aggrega.Storage.Buckets.{Bucket}
use distributed_logs_aggrega.Ingestion.{Pipeline}
use distributed_logs_aggrega.Middleware.{cors_headers}
use distributed_logs_aggrega.Middleware.Requests.{Ended, api-Ended}
use distributed_logs_aggrega.Cmd.Ingestor.Routes.{
  Endpoint, ingest, ingest_single, query, stats, throughput, pipeline_stats, health, ready, demo,
  to_demo, routes, FirstFits, Mux, Documented,
}
use distributed_logs_aggrega.Cmd.Ingestor.Routes.First.{first_endpoint, first_endpoint-FirstFits}
use distributed_logs_aggrega.Cmd.Ingestor.Api.{
  Backend, on_pipeline, handler_of, fresh, answer_by, answer,
}

-- A request for each endpoint.
abbrev pub method_of : Endpoint → String
method_of ingest = "POST"
method_of ingest_single = "POST"
method_of _ = "GET"

abbrev pub path_of : Endpoint → String
path_of ingest = "/api/v1/logs"
path_of ingest_single = "/api/v1/logs/single"
path_of query = "/api/v1/logs"
path_of stats = "/api/v1/stats"
path_of throughput = "/api/v1/throughput"
path_of pipeline_stats = "/api/v1/pipeline"
path_of health = "/healthz"
path_of ready = "/readyz"
path_of demo = "/demo/"
path_of to_demo = "/"

reached : (e : Endpoint) → first_endpoint routes (method_of e) (path_of e) ≡ some e
reached ingest = refl
reached ingest_single = refl
reached query = refl
reached stats = refl
reached throughput = refl
reached pipeline_stats = refl
reached health = refl
reached ready = refl
reached demo = refl
reached to_demo = refl

no_preflight : (e : Endpoint) → (method_of e == "OPTIONS") ≡ false
no_preflight ingest = refl
no_preflight ingest_single = refl
no_preflight _ = refl

module _ (ds : Doubles) (b : Backend ds) where
  -- A request by the method and the path of an endpoint, which no other route takes before, runs the
  -- endpoint's handler once, with the headers of `CORS`: the answer and the pipeline are what the
  -- handler leaves, and the request is counted with its status, unless the handler panics, which gives
  -- 500 and is not counted.
  pub answer-Reaches :
      (mux : Mux) (elapsed : ℕ) (e : Endpoint) (r : Request) (p : Pipeline)
      → Documented mux
      → r.method ≡ method_of e
      → r.path ≡ path_of e
      → mux.clean r.path ≡ r.path
      → Ended
          (Stats ds)
          Bucket
          Pipeline
          on_pipeline
          elapsed
          r
          (handler_of ds b e r (cors_headers (Stats ds) Bucket Pipeline on_pipeline (fresh ds b)) p)
          (answer ds b mux elapsed r p)
  unfolding answer answer_by
  answer-Reaches mux elapsed e r p doc m q clean =
      let first : FirstFits r.method r.path routes e =
        rw (m, q) (first_endpoint-FirstFits routes (method_of e) (path_of e) e (reached e)) in
      rw (doc.complete r.method r.path e clean first) (
        (api-Ended (Stats ds) Bucket Pipeline on_pipeline elapsed (handler_of ds b e) r p).1
          (rw m (no_preflight e)))
