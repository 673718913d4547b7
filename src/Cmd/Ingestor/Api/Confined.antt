-- ===== src/Cmd/Ingestor/Api/Confined.antt =====
-- Which requests can reach the pipeline.
use distributed_logs_aggrega.Base.{
  ℕ, String, ◌≡◌, ◌≢◌, refl, ap, subst, ◌∙◌, ◌⊎◌, inl, inr, none, some, Option, List, [], ◌∷◌, ◌==◌,
  eq_iff, All, Bool-cases,
}
use distributed_logs_aggrega.Base.Outcome.{returns, panics}
use distributed_logs_aggrega.Metrics.{Collectors}
use distributed_logs_aggrega.Http.{Request}
use distributed_logs_aggrega.Storage.Aggregate.{Doubles, Stats, StatsResult, snapshot, stats_failed}
use distributed_logs_aggrega.Storage.Buckets.{Bucket, BucketsResult, bucketed, buckets_failed}
use distributed_logs_aggrega.Storage.Query
use distributed_logs_aggrega.Storage.Query.{Found, find_failed}
use distributed_logs_aggrega.Ingestion.{Pipeline}
use distributed_logs_aggrega.Middleware.{cors_headers}
use distributed_logs_aggrega.Middleware.Requests.{Ended, api-Ended}
use distributed_logs_aggrega.Processor.{
  ApiWriter, Served, stats_reply, stats_handler, throughput_reply,
}
use distributed_logs_aggrega.Processor
use distributed_logs_aggrega.Cmd.Ingestor.Routes.{
  Endpoint, exact, prefix, api_route, ingest, ingest_single, query, stats, throughput,
  pipeline_stats, health, ready, demo, to_demo, Route, routes, Fits, FirstFits, found, skipped,
  Verdict, matched, not_allowed, not_found, moved, Mux, Documented,
}
use distributed_logs_aggrega.Cmd.Ingestor.Api.{
  Backend, on_pipeline, handler_of, fresh, answer_by, answer,
}

-- The only route that leads to an endpoint.
abbrev home : Endpoint → Route
home ingest = api_route "/logs" ingest "POST"
home ingest_single = api_route "/logs/single" ingest_single "POST"
home query = api_route "/logs" query "GET"
home stats = api_route "/stats" stats "GET"
home throughput = api_route "/throughput" throughput "GET"
home pipeline_stats = api_route "/pipeline" pipeline_stats "GET"
home health = record { pattern = exact "/healthz"; endpoint = health; methods = "GET" ∷ [] }
home ready = record { pattern = exact "/readyz"; endpoint = ready; methods = "GET" ∷ [] }
home demo = record { pattern = prefix "/demo/"; endpoint = demo; methods = [] }
home to_demo = record { pattern = exact "/"; endpoint = to_demo; methods = [] }

FirstFits-home :
    (method path : String) (rs : List Route) (e : Endpoint)
    → FirstFits method path rs e
    → All (λ r. r ≡ home r.endpoint) rs
    → Fits (home e) method path
FirstFits-home method path [] e f h = elim f [ ]
FirstFits-home method path (r ∷ rs) e (found fits leads) h =
    rw leads (subst (λ (x : Route). Fits x method path) (h.0) fits)
FirstFits-home method path (r ∷ rs) e (skipped _ later) h =
    FirstFits-home method path rs e later h.1

all_home : All (λ r. r ≡ home r.endpoint) routes
all_home = (refl, (refl, (refl, (refl, (refl, (refl, (refl, (refl, (refl, (refl, tt))))))))))

-- The requests whose handler submits.
abbrev pub Submits : Request → Type 0
Submits r = (r.method ≡ "POST") × ((r.path ≡ "/api/v1/logs") ⊎ (r.path ≡ "/api/v1/logs/single"))

abbrev pub IsRead : Endpoint → Type 0
IsRead ingest = ⊥
IsRead ingest_single = ⊥
IsRead _ = Unit

-- A route leads to reading, to submitting, or is taken by a preflight request.
leads_to :
    (r : Request) (e : Endpoint)
    → Fits (home e) r.method r.path
    → IsRead e ⊎ Submits r ⊎ (r.method ≡ "OPTIONS")
leads_to r ingest f = inr (elim f.on_method [
  | inl post ↦ inl (post, inl f.on_path)
  | inr o ↦ elim o [ inl options ↦ inr options | inr never ↦ absurd never ]
])
leads_to r ingest_single f = inr (elim f.on_method [
  | inl post ↦ inl (post, inr f.on_path)
  | inr o ↦ elim o [ inl options ↦ inr options | inr never ↦ absurd never ]
])
leads_to r query f = inl tt
leads_to r stats f = inl tt
leads_to r throughput f = inl tt
leads_to r pipeline_stats f = inl tt
leads_to r health f = inl tt
leads_to r ready f = inl tt
leads_to r demo f = inl tt
leads_to r to_demo f = inl tt

-- Only what the collectors count has changed.
abbrev pub SameButCounts : Pipeline → Pipeline → Type 0
SameButCounts p q = (c : Option Collectors) × (q ≡ record p { collectors = c })

module _ (ds : Doubles) (b : Backend ds) where
  query_reply-keeps :
      (w : ApiWriter ds) (p : Pipeline) (x : Found) → (Processor.query_reply ds w p x).1 ≡ p
  unfolding Processor.query_reply
  query_reply-keeps w p (find_failed e) = refl
  query_reply-keeps w p (Query.found es) = refl

  stats_reply-keeps :
      (w : ApiWriter ds) (p : Pipeline) (x : StatsResult ds) → (stats_reply ds w p x).1 ≡ p
  unfolding stats_reply
  stats_reply-keeps w p (stats_failed e) = refl
  stats_reply-keeps w p (snapshot s) = refl

  throughput_reply-keeps :
      (w : ApiWriter ds) (p : Pipeline) (x : BucketsResult) → (throughput_reply ds w p x).1 ≡ p
  unfolding throughput_reply
  throughput_reply-keeps w p (buckets_failed e) = refl
  throughput_reply-keeps w p (bucketed bs) = refl

  health-keeps :
      (w : ApiWriter ds) (p : Pipeline) (ping : Option String)
      → (Processor.health ds ping b.uptime w p).1 ≡ p
  unfolding Processor.health
  health-keeps w p none = refl
  health-keeps w p (some e) = refl

  pub handler_of-keeps :
      (e : Endpoint) (r : Request) (w : ApiWriter ds) (p : Pipeline)
      → IsRead e
      → (handler_of ds b e r w p).1 ≡ p
  unfolding handler_of Processor.query stats_handler Processor.throughput Processor.pipeline_stats
      Processor.ready
  handler_of-keeps ingest r w p h = absurd h
  handler_of-keeps ingest_single r w p h = absurd h
  handler_of-keeps query r w p h = query_reply-keeps w p _
  handler_of-keeps stats r w p h = stats_reply-keeps w p _
  handler_of-keeps throughput r w p h = throughput_reply-keeps w p _
  handler_of-keeps pipeline_stats r w p h = refl
  handler_of-keeps health r w p h = health-keeps w p b.ping
  handler_of-keeps ready r w p h = refl
  handler_of-keeps demo r w p h = refl
  handler_of-keeps to_demo r w p h = refl

  abbrev Out : Type 0
  Out = Served ds

  Ended-returns :
      (elapsed : ℕ) (r : Request) (t out : Out)
      → Ended (Stats ds) Bucket Pipeline on_pipeline elapsed r t out
      → out.2 ≡ returns tt
  Ended-returns elapsed r (w, q, returns u) out h = ap (λ (o : Out). o.2) h
  Ended-returns elapsed r (w, q, panics e) out h = h.1

  Ended-SameButCounts :
      (elapsed : ℕ) (r : Request) (p : Pipeline) (t out : Out)
      → t.1 ≡ p
      → Ended (Stats ds) Bucket Pipeline on_pipeline elapsed r t out
      → SameButCounts p out.1
  Ended-SameButCounts elapsed r p (w, q, returns u) out same h =
      (_, ap (λ (o : Out). o.1) h ∙ ap (on_pipeline _) same)
  Ended-SameButCounts elapsed r p (w, q, panics e) out same h = (p.collectors, h.0 ∙ same)

  module _ (elapsed : ℕ) (r : Request) (p : Pipeline) where
    abbrev out_of : Endpoint → Out
    out_of e = answer_by ds b elapsed (matched e) r p

    api_lem :
        (e : Endpoint)
        → ((r.method ≡ "OPTIONS") × SameButCounts p (out_of e).1 × ((out_of e).2 ≡ returns tt))
          ⊎ ((r.method ≢ "OPTIONS")
              × Ended
                  (Stats ds)
                  Bucket
                  Pipeline
                  on_pipeline
                  elapsed
                  r
                  (handler_of ds b e r
                    (cors_headers (Stats ds) Bucket Pipeline on_pipeline (fresh ds b))
                    p)
                  (out_of e))
    unfolding answer_by
    api_lem e =
        let (preflight, other) =
          api-Ended (Stats ds) Bucket Pipeline on_pipeline elapsed (handler_of ds b e) r p in
        elim (Bool-cases (r.method == "OPTIONS")) [
          | inl is ↦ inl (
            (eq_iff r.method "OPTIONS").0 is,
            (_, ap (λ (o : Out). o.1) (preflight is)),
            ap (λ (o : Out). o.2) (preflight is),
          )
          | inr isnt ↦ inr ((λ is. cc (isnt, (eq_iff r.method "OPTIONS").1 is)), other isnt)
        ]

    pub record Confined (out : Out) : Type 0 where
      pub returned : out.2 ≡ returns tt
      pub kept : Submits r ⊎ SameButCounts p out.1

    route-Confined : (e : Endpoint) → Fits (home e) r.method r.path → Confined (out_of e)
    route-Confined e fits = elim (api_lem e) [
      | inl (options, same, returned) ↦ record { returned = returned; kept = inr same }
      | inr (no_preflight, ended) ↦ record {
        returned = Ended-returns elapsed r _ _ ended;
        kept = elim (leads_to r e fits) [
          | inl reads ↦
              inr (Ended-SameButCounts elapsed r p _ _ (handler_of-keeps e r _ p reads) ended)
          | inr (inl submits) ↦ inl submits
          | inr (inr preflight) ↦ absurd (no_preflight preflight)
        ];
      }
    ]

    verdict-Confined :
        (v : Verdict)
        → ((e : Endpoint) → v ≡ matched e → FirstFits r.method r.path routes e)
        → Confined (answer_by ds b elapsed v r p)
    unfolding answer_by
    verdict-Confined (matched e) sound =
        route-Confined e (FirstFits-home r.method r.path routes e (sound e refl) all_home)
    verdict-Confined not_allowed sound = record { returned = refl; kept = inr (p.collectors, refl) }
    verdict-Confined not_found sound = record { returned = refl; kept = inr (p.collectors, refl) }
    verdict-Confined (moved url) sound = record { returned = refl; kept = inr (p.collectors, refl) }

    -- Whatever is requested, serving it returns, also if a handler panics; and a request other than a
    -- POST of /api/v1/logs or /api/v1/logs/single, found or not, leaves the queue, the memory for keys
    -- and the counters of the pipeline as they are: at most the collectors count it.
    pub answer-Confined : (mux : Mux) → Documented mux → Confined (answer ds b mux elapsed r p)
    unfolding answer
    answer-Confined mux doc =
        verdict-Confined (mux.match routes r.method r.path) (doc.sound r.method r.path)
