-- ===== src/Cmd/Ingestor/Api/Growth.antt =====
-- What a request to the API puts into the queue: as much as its answer says.
use distributed_logs_aggrega.Base.{ℕ, ◌≡◌, refl, true, false, [], ◌==◌, Bool-cases, inl, inr, arith}
use distributed_logs_aggrega.Base.Outcome.{returns, panics}
use distributed_logs_aggrega.Http.{Request, http_error, write_header}
use distributed_logs_aggrega.Storage.Aggregate.{Doubles, Stats}
use distributed_logs_aggrega.Storage.Buckets.{Bucket}
use distributed_logs_aggrega.Ingestion.{Pipeline}
use distributed_logs_aggrega.Ingestion.Submit.Keyless.{Takes}
use distributed_logs_aggrega.Middleware.{
  api, recover, metrics, cors, recovered, counted, cors_headers,
}
use distributed_logs_aggrega.Middleware.Requests.{api-Ended}
use distributed_logs_aggrega.Processor.{ApiWriter, Served}
use distributed_logs_aggrega.Cmd.Ingestor.Routes.{
  Endpoint, ingest, ingest_single, query, stats, throughput, pipeline_stats, health, ready, demo,
  to_demo, routes, Verdict, matched, not_allowed, not_found, moved, Mux,
}
use distributed_logs_aggrega.Cmd.Ingestor.Api.{
  Backend, on_pipeline, handler_of, fresh, answer_by, answer,
}
use distributed_logs_aggrega.Cmd.Ingestor.Api.Confined.{IsRead, handler_of-keeps}
use distributed_logs_aggrega.Cmd.Ingestor.Api.Takes.{
  acked, HandlerTakes, Takes-refl, BatchKeyless, EventKeyless, batch-Takes, event-Takes,
}

module _ (ds : Doubles) where
  -- How many events the answer of the endpoint reports as accepted: only those of the two that
  -- submit report any.
  abbrev acked_at : Endpoint → ApiWriter ds → ℕ
  acked_at ingest w = acked ds w.body
  acked_at ingest_single w = acked ds w.body
  acked_at _ w = 0

  abbrev acked_by : Verdict → ApiWriter ds → ℕ
  acked_by (matched e) w = acked_at e w
  acked_by _ w = 0

  abbrev pub acknowledged : Mux → Request → ApiWriter ds → ℕ
  acknowledged mux r w = acked_by (mux.match routes r.method r.path) w

  module _ (b : Backend ds) where
    -- No event in the request has a key, be it read as a batch or as one event.
    abbrev pub Keyless : Request → Type 0
    Keyless r = BatchKeyless ds (b.decode_request r.body) × EventKeyless ds (b.decode_event r.body)

    abbrev Out : Type 0
    Out = Served ds

    abbrev cors_writer : ApiWriter ds
    cors_writer = cors_headers (Stats ds) Bucket Pipeline on_pipeline (fresh ds b)

    -- Through the middleware.
    served-Takes :
        (elapsed : ℕ) (r : Request) (p : Pipeline) (t : Out)
        → HandlerTakes ds p t
        → let out : Out =
            recovered
              (Stats ds)
              Bucket
              Pipeline
              on_pipeline
              (counted (Stats ds) Bucket Pipeline on_pipeline elapsed r t) in
          Takes p out.1 (acked ds out.0.body)
    unfolding http_error
    served-Takes elapsed r p (w, q, returns u) h = record {
      grown = h.grown;
      closed = h.closed;
      shut = h.shut;
    }
    served-Takes elapsed r p (w, q, panics e) h = h

    kept-Takes :
        (elapsed : ℕ) (r : Request) (p : Pipeline) (t : Out)
        → t.1 ≡ p
        → Takes p
            (recovered
              (Stats ds)
              Bucket
              Pipeline
              on_pipeline
              (counted (Stats ds) Bucket Pipeline on_pipeline elapsed r t)).1
            0
    kept-Takes elapsed r p (w, q, returns u) same =
        rw same (record { grown = omega arith; closed = refl; shut = λ c. refl })
    kept-Takes elapsed r p (w, q, panics e) same = rw same (Takes-refl ds p)

    -- An answer of an endpoint, and what it adds to the queue.
    abbrev EndpointTakes : Endpoint → Pipeline → Out → Type 0
    EndpointTakes e p out = Takes p out.1 (acked_at e out.0)

    read-Takes :
        (elapsed : ℕ) (e : Endpoint) (r : Request) (p : Pipeline)
        → IsRead e
        → EndpointTakes e p (
            recovered (Stats ds) Bucket Pipeline on_pipeline (
              counted
                (Stats ds)
                Bucket
                Pipeline
                on_pipeline
                elapsed
                r
                (handler_of ds b e r cors_writer p)))
    read-Takes elapsed ingest r p h = absurd h
    read-Takes elapsed ingest_single r p h = absurd h
    read-Takes elapsed e r p h =
        kept-Takes elapsed r p (handler_of ds b e r cors_writer p)
          (handler_of-keeps ds b e r cors_writer p h)

    acked_at_nothing : (e : Endpoint) (w : ApiWriter ds) → w.body ≡ [] → acked_at e w ≡ 0
    acked_at_nothing ingest w h = rw h refl
    acked_at_nothing ingest_single w h = rw h refl
    acked_at_nothing _ w h = refl

    preflight-Takes :
        (elapsed : ℕ) (e : Endpoint) (r : Request) (p : Pipeline)
        → (r.method == "OPTIONS") ≡ true
        → EndpointTakes e p (answer_by ds b elapsed (matched e) r p)
    unfolding answer_by
    preflight-Takes elapsed e r p is =
        rw
          (
            (api-Ended (Stats ds) Bucket Pipeline on_pipeline elapsed (handler_of ds b e) r p).0 is,
            acked_at_nothing e (write_header (Stats ds) Bucket 204 cors_writer) refl,
          )
          (record { grown = omega arith; closed = refl; shut = λ c. refl })

    handled-Takes :
        (elapsed : ℕ) (e : Endpoint) (r : Request) (p : Pipeline)
        → Keyless r
        → EndpointTakes e p (
            recovered (Stats ds) Bucket Pipeline on_pipeline (
              counted
                (Stats ds)
                Bucket
                Pipeline
                on_pipeline
                elapsed
                r
                (handler_of ds b e r cors_writer p)))
    unfolding handler_of
    handled-Takes elapsed ingest r p keyless =
        served-Takes elapsed r p _
          (batch-Takes ds b.clock (b.decode_request r.body) cors_writer p keyless.0)
    handled-Takes elapsed ingest_single r p keyless =
        served-Takes elapsed r p _
          (event-Takes ds (b.clock 0) (b.decode_event r.body) cors_writer p keyless.1)
    handled-Takes elapsed query r p keyless = read-Takes elapsed query r p tt
    handled-Takes elapsed stats r p keyless = read-Takes elapsed stats r p tt
    handled-Takes elapsed throughput r p keyless = read-Takes elapsed throughput r p tt
    handled-Takes elapsed pipeline_stats r p keyless = read-Takes elapsed pipeline_stats r p tt
    handled-Takes elapsed health r p keyless = read-Takes elapsed health r p tt
    handled-Takes elapsed ready r p keyless = read-Takes elapsed ready r p tt
    handled-Takes elapsed demo r p keyless = read-Takes elapsed demo r p tt
    handled-Takes elapsed to_demo r p keyless = read-Takes elapsed to_demo r p tt

    api-handled :
        (elapsed : ℕ) (e : Endpoint) (r : Request) (p : Pipeline)
        → (r.method == "OPTIONS") ≡ false
        → answer_by ds b elapsed (matched e) r p
          ≡ recovered (Stats ds) Bucket Pipeline on_pipeline (
              counted
                (Stats ds)
                Bucket
                Pipeline
                on_pipeline
                elapsed
                r
                (handler_of ds b e r cors_writer p))
    unfolding answer_by api recover metrics cors
    api-handled elapsed e r p isnt = simp isnt refl

    verdict-Takes :
        (elapsed : ℕ) (v : Verdict) (r : Request) (p : Pipeline)
        → Keyless r
        → Takes p (answer_by ds b elapsed v r p).1 (acked_by v (answer_by ds b elapsed v r p).0)
    unfolding answer_by
    verdict-Takes elapsed (matched e) r p keyless = elim (Bool-cases (r.method == "OPTIONS")) [
      | inl is ↦ preflight-Takes elapsed e r p is
      | inr isnt ↦ rw (api-handled elapsed e r p isnt) (handled-Takes elapsed e r p keyless)
    ]
    verdict-Takes elapsed not_allowed r p keyless = Takes-refl ds p
    verdict-Takes elapsed not_found r p keyless = Takes-refl ds p
    verdict-Takes elapsed (moved url) r p keyless = Takes-refl ds p

    -- A request without keys, found or not: the queue grows by the events its answer reports as accepted.
    pub answer-Takes :
        (mux : Mux) (elapsed : ℕ) (r : Request) (p : Pipeline)
        → Keyless r
        → Takes p
            (answer ds b mux elapsed r p).1
            (acknowledged mux r (answer ds b mux elapsed r p).0)
    unfolding answer
    answer-Takes mux elapsed r p = verdict-Takes elapsed (mux.match routes r.method r.path) r p
