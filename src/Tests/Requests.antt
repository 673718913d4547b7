-- ===== src/Tests/Requests.antt =====
-- Requests to the API through a router.
use distributed_logs_aggrega.Base.{
  ◌≡◌, refl, String, Option, none, some, List, [], ◌∷◌, ◌==◌, if◌then◌else◌,
}
use distributed_logs_aggrega.Base.Int.{pos}
use distributed_logs_aggrega.Base.Outcome.{returns}
use distributed_logs_aggrega.Http.{Request}
use distributed_logs_aggrega.Storage.Query.{found}
use distributed_logs_aggrega.Storage.Aggregate.{Stats, aggregate_failed}
use distributed_logs_aggrega.Storage.Buckets.{Bucket, rows_failed}
use distributed_logs_aggrega.Middleware.{cors_headers}
use distributed_logs_aggrega.Middleware.Requests.{Ended}
use distributed_logs_aggrega.Processor.{decoded, malformed}
use distributed_logs_aggrega.Cmd.Ingestor.Routes.{
  Endpoint, ingest, routes, Verdict, matched, not_found, Mux, Documented,
}
use distributed_logs_aggrega.Cmd.Ingestor.Routes.First.{
  first_endpoint, first_endpoint-FirstFits, FirstFits-first_endpoint,
}
use distributed_logs_aggrega.Cmd.Ingestor.Api.{
  Backend, on_pipeline, handler_of, fresh, answer_by, answer,
}
use distributed_logs_aggrega.Cmd.Ingestor.Api.Confined.{Confined, answer-Confined}
use distributed_logs_aggrega.Cmd.Ingestor.Api.Reaches.{answer-Reaches}
use distributed_logs_aggrega.Cmd.Ingestor.Api.Search.{Searched, search-Searched}
use distributed_logs_aggrega.Ingestion.System.{Reach}
use distributed_logs_aggrega.Processor.Steps.{at_pipeline}
use distributed_logs_aggrega.Cmd.Ingestor.Api.Runs.{answer-Stepped}
use distributed_logs_aggrega.Tests.Runs.{first}
use distributed_logs_aggrega.Tests.Api.{whole}
use distributed_logs_aggrega.Tests.Data.{order_placed, at, small}

abbrev verdict_of : Option Endpoint → Verdict
verdict_of none = not_found
verdict_of (some e) = matched e

verdict_inj : (o : Option Endpoint) (e : Endpoint) → verdict_of o ≡ matched e → o ≡ some e
verdict_inj none e h = cc
verdict_inj (some x) e h = cc

-- A router for paths that are all clean.
abbrev pub first_mux : Mux
first_mux = record {
  match = λ rs method path. verdict_of (first_endpoint rs method path);
  clean = λ path. path;
}

first_mux-Documented : Documented first_mux
first_mux-Documented = record {
  sound = λ method path e h.
      first_endpoint-FirstFits routes method path e
        (verdict_inj (first_endpoint routes method path) e h);
  complete = λ method path e clean f. rw (FirstFits-first_endpoint routes method path e f) refl;
}

abbrev pub backend : Backend whole
backend = record {
  decode_request = λ body. decoded (record { events = order_placed ∷ [] });
  decode_event = λ body. malformed "no object";
  clock = at;
  ping = none;
  uptime = pos 5;
  find = λ q. found (order_placed ∷ []);
  aggregate = λ stages. aggregate_failed "unavailable";
  rows_of = λ stages. rows_failed "unavailable";
  format = λ t. "";
  parse = λ s. if s == "15m" then some (pos 900) else none;
  now = pos 1000;
  serve_file = λ r w. (w, returns tt);
}

abbrev param_of : List (String × String) → String → String
param_of [] k = ""
param_of ((j, v) ∷ ps) k = if j == k then v else param_of ps k

abbrev get : String → Request
get path = record {
  method = "GET";
  path = path;
  param = param_of (("since", "15m") ∷ ("limit", "20") ∷ []);
  body = "";
}

abbrev pub post : String → Request
post path = record { method = "POST"; path = path; param = λ k. ""; body = "{}" }

answer-Confined_example :
    Confined whole backend 4
      (get "/api/v1/stats")
      small
      (answer whole backend first_mux 4 (get "/api/v1/stats") small)
answer-Confined_example =
    answer-Confined whole backend 4 (get "/api/v1/stats") small first_mux first_mux-Documented

answer-Reaches_example :
    Ended
      (Stats whole)
      Bucket
      _
      on_pipeline
      4
      (post "/api/v1/logs")
      (handler_of whole backend ingest
        (post "/api/v1/logs")
        (cors_headers (Stats whole) Bucket _ on_pipeline (fresh whole backend))
        small)
      (answer whole backend first_mux 4 (post "/api/v1/logs") small)
answer-Reaches_example =
    answer-Reaches whole backend first_mux 4 ingest (post "/api/v1/logs") small first_mux-Documented
      refl refl refl

search-Searched_example :
    Searched whole backend
      (get "/api/v1/logs")
      (answer whole backend first_mux 4 (get "/api/v1/logs") small)
search-Searched_example =
    search-Searched whole backend first_mux 4 (get "/api/v1/logs") small first_mux-Documented refl
      refl refl

-- A method that no route of the path has.
deleted :
    (answer whole backend first_mux 4 (record (post "/api/v1/logs") { method = "DELETE" }) small).1
    ≡ small
unfolding answer answer_by distributed_logs_aggrega.Http.http_error
deleted = refl

answer-Stepped_example :
    Reach first (at_pipeline first (answer whole backend first_mux 4 (post "/api/v1/logs") small).1)
answer-Stepped_example = answer-Stepped whole backend first_mux 4 (post "/api/v1/logs") first
