-- ===== src/Middleware/Requests.antt =====
-- What a request through all of the middleware leaves behind.
use distributed_logs_aggrega.Base.{ℕ, ◌≡◌, refl, true, false, some, ◌==◌}
use distributed_logs_aggrega.Base.Outcome.{returns, panics}
use distributed_logs_aggrega.Metrics.{Collectors}
use distributed_logs_aggrega.Http.{Request, Handler, write_header, http_error, new_writer, or_else}
use distributed_logs_aggrega.Middleware.{
  count_request, recover, metrics, cors, api, cors_headers, Served, recovered, counted,
}

module _ (Stats Bucket S : Type 0) (on_collectors : (Collectors → Collectors) → S → S) where
  -- What becomes of a request by how its handler ended.
  abbrev pub Ended :
      ℕ
      → Request
      → Served Stats Bucket S on_collectors
      → Served Stats Bucket S on_collectors
      → Type 0
  Ended elapsed r (w, s, returns u) out =
      out ≡ (w, on_collectors (count_request r w.noted elapsed) s, returns tt)
  Ended elapsed r (w, s, panics e) out =
      (out.1 ≡ s) × (out.2 ≡ returns tt) × (out.0.status ≡ some (or_else Stats Bucket w.status 500))

  Ended_lem :
      (elapsed : ℕ) (r : Request) (t : Served Stats Bucket S on_collectors)
      → Ended elapsed r t (
          recovered Stats Bucket S on_collectors (counted Stats Bucket S on_collectors elapsed r t))
  unfolding http_error
  Ended_lem elapsed r (w, s, returns u) = refl
  Ended_lem elapsed r (w, s, panics e) = (refl, refl, refl)

  -- A preflight request is answered with 204 and counted, and reaches no handler. Another request
  -- runs the handler once, with the headers of `CORS`. If the handler returns, the request is counted
  -- with the status that it wrote, 200 if it wrote none; if it panics, the panic ends there, the
  -- status is 500 unless one was sent before, and the request is not counted.
  pub api-Ended :
      (elapsed : ℕ) (next : Handler Stats Bucket S) (r : Request) (s : S)
      → ((r.method == "OPTIONS") ≡ true
          → api Stats Bucket S on_collectors elapsed next r (new_writer Stats Bucket) s ≡ (
            write_header Stats Bucket 204
                (cors_headers Stats Bucket S on_collectors (new_writer Stats Bucket)),
            on_collectors (count_request r 204 elapsed) s,
            returns tt,
          ))
        × ((r.method == "OPTIONS") ≡ false
            → Ended elapsed r
                (next r (cors_headers Stats Bucket S on_collectors (new_writer Stats Bucket)) s)
                (api Stats Bucket S on_collectors elapsed next r (new_writer Stats Bucket) s))
  unfolding api recover metrics cors
  api-Ended elapsed next r s = ((λ e. simp e refl), (λ e. simp e (Ended_lem elapsed r _)))
