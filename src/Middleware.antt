-- ===== src/Middleware.antt =====
-- internal/middleware/middleware.go, and the order in which cmd/ingestor/main.go puts it around the
-- handlers. Log lines are not modelled. `elapsed` is the time that a request takes.
pub mod Requests
use distributed_logs_aggrega.Base.{ℕ, String, Bool, Option, List, ◌∷◌, ◌==◌, if◌then◌else◌}
use distributed_logs_aggrega.Base.Outcome.{Outcome, returns, panics}
use distributed_logs_aggrega.Metrics.{Collectors, RequestLabels}
use distributed_logs_aggrega.Http.{
  Request, Writer, Handler, set_header, write_header, send_status, http_error,
}

-- `RequestsTotal.WithLabelValues(…).Inc()` and `RequestLatency.WithLabelValues(…).Observe(elapsed)`
abbrev pub count_request : Request → ℕ → ℕ → Collectors → Collectors
count_request r status elapsed c = record c {
  requests_total = record { method = r.method; path = r.path; status = status } ∷ c.requests_total;
  request_latency = (r.method, r.path, elapsed) ∷ c.request_latency;
}

-- `on_collectors` reaches the collectors in the state that the handlers share.
module _ (Stats Bucket S : Type 0) (on_collectors : (Collectors → Collectors) → S → S) where
  abbrev pub Served : Type 0
  Served = Writer Stats Bucket × S × Outcome Unit

  abbrev pub recovered : Served → Served
  recovered (w, s, returns u) = (w, s, returns u)
  recovered (w, s, panics e) =
      (http_error Stats Bucket "internal server error" 500 w, s, returns tt)

  unfoldable pub recover : Handler Stats Bucket S → Handler Stats Bucket S
  recover next r w s = recovered (next r w s)

  -- The counting is not deferred: a panic goes past it.
  abbrev pub counted : ℕ → Request → Served → Served
  counted elapsed r (w, s, panics e) = (w, s, panics e)
  counted elapsed r (w, s, returns u) =
      (w, on_collectors (count_request r w.noted elapsed) s, returns u)

  unfoldable pub metrics : ℕ → Handler Stats Bucket S → Handler Stats Bucket S
  metrics elapsed next r w s = counted elapsed r (next r (record w { noted = 200 }) s)

  abbrev pub cors_headers : Writer Stats Bucket → Writer Stats Bucket
  cors_headers w = set_header Stats Bucket "Access-Control-Allow-Headers" "Content-Type" (
      set_header Stats Bucket "Access-Control-Allow-Methods" "GET, POST, OPTIONS"
        (set_header Stats Bucket "Access-Control-Allow-Origin" "*" w))

  unfoldable pub cors : Handler Stats Bucket S → Handler Stats Bucket S
  cors next r w s =
      if r.method == "OPTIONS"
      then (write_header Stats Bucket 204 (cors_headers w), s, returns tt)
      else next r (cors_headers w) s

  -- `r.Use(middleware.Recover(log))`, then `Metrics`, then `CORS`: the first is the outermost.
  unfoldable pub api : ℕ → Handler Stats Bucket S → Handler Stats Bucket S
  api elapsed next = recover (metrics elapsed (cors next))
