-- ===== src/Cmd/Ingestor/Api/Runs.antt =====
-- A request to the API as a run of the pipeline.
use distributed_logs_aggrega.Base.{ℕ, refl, ◌==◌, Bool-cases, inl, inr}
use distributed_logs_aggrega.Base.Outcome.{returns, panics}
use distributed_logs_aggrega.Http.{Request}
use distributed_logs_aggrega.Storage.Aggregate.{Doubles, Stats}
use distributed_logs_aggrega.Storage.Buckets.{Bucket}
use distributed_logs_aggrega.Ingestion.{Pipeline}
use distributed_logs_aggrega.Ingestion.System.{System, observes, Reach, here, next}
use distributed_logs_aggrega.Middleware.{cors_headers}
use distributed_logs_aggrega.Middleware.Requests.{Ended, api-Ended}
use distributed_logs_aggrega.Processor.{ApiWriter, Served}
use distributed_logs_aggrega.Processor.Steps.{at_pipeline, Stepped, ingest-Stepped, single-Stepped}
use distributed_logs_aggrega.Cmd.Ingestor.Routes.{
  Endpoint, ingest, ingest_single, query, stats, throughput, pipeline_stats, health, ready, demo,
  to_demo, routes, Verdict, matched, not_allowed, not_found, moved, Mux,
}
use distributed_logs_aggrega.Cmd.Ingestor.Api.{
  Backend, on_pipeline, handler_of, fresh, answer_by, answer,
}
use distributed_logs_aggrega.Cmd.Ingestor.Api.Confined.{IsRead, handler_of-keeps}

module _ (ds : Doubles) (b : Backend ds) where
  abbrev cors_writer : ApiWriter ds
  cors_writer = cors_headers (Stats ds) Bucket Pipeline on_pipeline (fresh ds b)

  read-Stepped :
      (e : Endpoint) (r : Request) (w : ApiWriter ds) (s : System)
      → IsRead e
      → Stepped ds s (handler_of ds b e r w s.pipeline)
  read-Stepped e r w s reads = rw (handler_of-keeps ds b e r w s.pipeline reads) here

  handler_of-Stepped :
      (e : Endpoint) (r : Request) (w : ApiWriter ds) (s : System)
      → Stepped ds s (handler_of ds b e r w s.pipeline)
  unfolding handler_of
  handler_of-Stepped ingest r w s = ingest-Stepped ds b.clock (b.decode_request r.body) w s
  handler_of-Stepped ingest_single r w s = single-Stepped ds (b.clock 0) (b.decode_event r.body) w s
  handler_of-Stepped query r w s = read-Stepped query r w s tt
  handler_of-Stepped stats r w s = read-Stepped stats r w s tt
  handler_of-Stepped throughput r w s = read-Stepped throughput r w s tt
  handler_of-Stepped pipeline_stats r w s = read-Stepped pipeline_stats r w s tt
  handler_of-Stepped health r w s = read-Stepped health r w s tt
  handler_of-Stepped ready r w s = read-Stepped ready r w s tt
  handler_of-Stepped demo r w s = read-Stepped demo r w s tt
  handler_of-Stepped to_demo r w s = read-Stepped to_demo r w s tt

  -- A panic leaves what the handler has done; otherwise the request is counted too.
  Ended-Stepped :
      (elapsed : ℕ) (r : Request) (s : System) (t out : Served ds)
      → Stepped ds s t
      → Ended (Stats ds) Bucket Pipeline on_pipeline elapsed r t out
      → Stepped ds s out
  Ended-Stepped elapsed r s (w, q, returns u) out path h = rw h (next path (observes _ refl))
  Ended-Stepped elapsed r s (w, q, panics e) out path h = rw (h.0) path

  verdict-Stepped :
      (elapsed : ℕ) (r : Request) (s : System) (v : Verdict)
      → Stepped ds s (answer_by ds b elapsed v r s.pipeline)
  unfolding answer_by
  verdict-Stepped elapsed r s (matched e) =
      let (preflight, other) =
        api-Ended (Stats ds) Bucket Pipeline on_pipeline elapsed (handler_of ds b e) r s.pipeline in
      elim (Bool-cases (r.method == "OPTIONS")) [
        | inl is ↦ rw (preflight is) (next here (observes _ refl))
        | inr isnt ↦
            Ended-Stepped elapsed r s _ _ (handler_of-Stepped e r cors_writer s) (other isnt)
      ]
  verdict-Stepped elapsed r s not_allowed = here
  verdict-Stepped elapsed r s not_found = here
  verdict-Stepped elapsed r s (moved url) = here

  -- Whatever the router finds, a request acts on the pipeline, in any state of it, in no other way
  -- than by steps: what holds of every run of the pipeline holds while the API serves it.
  pub answer-Stepped :
      (mux : Mux) (elapsed : ℕ) (r : Request) (s : System)
      → Reach s (at_pipeline s (answer ds b mux elapsed r s.pipeline).1)
  unfolding answer
  answer-Stepped mux elapsed r s = verdict-Stepped elapsed r s (mux.match routes r.method r.path)
