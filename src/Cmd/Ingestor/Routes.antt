-- ===== src/Cmd/Ingestor/Routes.antt =====
-- The routes of cmd/ingestor/main.go, and gorilla/mux, which serves them, by its documentation.
pub mod First
use Prim.Native.String
use text.Mathlib.TextBridge.{IsPrefix}
use distributed_logs_aggrega.Base.{String, ◌≡◌, ◌⊎◌, List, [], ◌∷◌, ◌++◌}

pub data Endpoint : Type 0 where
  ingest ingest_single query stats throughput pipeline_stats health ready demo to_demo : Endpoint

-- `HandleFunc` and `Handle` take a whole path, `PathPrefix` the beginning of one.
pub data Pattern : Type 0 where
  exact prefix : String → Pattern

-- Without `Methods` a route takes any, which the empty list stands for.
pub record Route : Type 0 where
  pub pattern : Pattern
  pub endpoint : Endpoint
  pub methods : List String

-- A route of the subrouter below /api/v1, where preflight requests are accepted too.
abbrev pub api_route : String → Endpoint → String → Route
api_route path endpoint method = record {
  pattern = exact (String.◌++◌ "/api/v1" path);
  endpoint = endpoint;
  methods = method ∷ "OPTIONS" ∷ [];
}

abbrev pub api_routes : List Route
api_routes =
    api_route "/logs" ingest "POST"
    ∷ api_route "/logs/single" ingest_single "POST"
    ∷ api_route "/logs" query "GET"
    ∷ api_route "/stats" stats "GET"
    ∷ api_route "/throughput" throughput "GET"
    ∷ api_route "/pipeline" pipeline_stats "GET"
    ∷ []

-- In the order of registration, which is that of the subrouter before the others.
abbrev pub routes : List Route
routes =
    api_routes
    ++ record { pattern = exact "/healthz"; endpoint = health; methods = "GET" ∷ [] }
      ∷ record { pattern = exact "/readyz"; endpoint = ready; methods = "GET" ∷ [] }
      ∷ record { pattern = prefix "/demo/"; endpoint = demo; methods = [] }
      ∷ record { pattern = exact "/"; endpoint = to_demo; methods = [] }
      ∷ []

abbrev pub PathFits : Pattern → String → Type 0
PathFits (exact q) path = path ≡ q
PathFits (prefix q) path = IsPrefix q path

abbrev pub OneOf : String → List String → Type 0
OneOf m [] = ⊥
OneOf m (x ∷ xs) = (m ≡ x) ⊎ OneOf m xs

abbrev pub MethodFits : List String → String → Type 0
MethodFits [] m = Unit
MethodFits (x ∷ xs) m = OneOf m (x ∷ xs)

pub record Fits (route : Route) (method path : String) : Type 0 where
  pub on_path : PathFits route.pattern path
  pub on_method : MethodFits route.methods method

-- The first route that fits leads to the endpoint.
pub data FirstFits (method path : String) : List Route → Endpoint → Type 0 where
  found :
      {route : Route} {rest : List Route} {e : Endpoint}
      → Fits route method path
      → e ≡ route.endpoint
      → FirstFits method path (route ∷ rest) e
  skipped :
      {route : Route} {rest : List Route} {e : Endpoint}
      → ¬ Fits route method path
      → FirstFits method path rest e
      → FirstFits method path (route ∷ rest) e

-- What the router finds: a route, no route for this method, no route at all, or a path to clean,
-- which is redirected.
pub data Verdict : Type 0 where
  matched : Endpoint → Verdict
  not_allowed : Verdict
  not_found : Verdict
  moved : String → Verdict

pub record Mux : Type 0 where
  pub match : List Route → String → String → Verdict
  pub clean : String → String

-- Routes are tested in the order in which they were added, and the first one that matches wins; a
-- path that is not clean is redirected before.
pub record Documented (mux : Mux) : Type 0 where
  pub sound :
      (method path : String) (e : Endpoint)
      → mux.match routes method path ≡ matched e
      → FirstFits method path routes e
  pub complete :
      (method path : String) (e : Endpoint)
      → mux.clean path ≡ path
      → FirstFits method path routes e
      → mux.match routes method path ≡ matched e
