-- ===== src/Http.antt =====
-- What the handlers and the middleware use of Go's net/http. A response takes the first status that
-- is written, and the headers that are set before it. `noted` is the field `status` of the
-- middleware's `statusWriter`, which sees every call of `WriteHeader`.
use distributed_logs_aggrega.Base.{ℕ, String, Option, none, some, List, [], ◌∷◌}
use distributed_logs_aggrega.Base.Int.{ℤ}
use distributed_logs_aggrega.Base.GoMap.{GoMap, insert}
use distributed_logs_aggrega.Base.Outcome.{Outcome}
use distributed_logs_aggrega.Models.{LogEvent, IngestResponse}

-- `param` is `r.URL.Query().Get`.
pub record Request : Type 0 where
  pub method : String
  pub path : String
  pub param : String → String
  pub body : String

-- The bodies that are written: the values that handlers.go encodes as JSON, or a plain text.
-- `Stats` and `Bucket` are what the store answers with.
pub data Body (Stats Bucket : Type 0) : Type 0 where
  error_body : String → Body Stats Bucket
  status_body : String → Body Stats Bucket
  unhealthy : String → Body Stats Bucket
  healthy : ℤ → Body Stats Bucket
  ingest_response : IngestResponse → Body Stats Bucket
  event_list : ℕ → List LogEvent → Body Stats Bucket
  stats_body : Stats → Body Stats Bucket
  buckets : List Bucket → Body Stats Bucket
  counters : ℕ → ℕ → ℕ → ℕ → Body Stats Bucket
  plain : String → Body Stats Bucket

module _ (Stats Bucket : Type 0) where
  pub record Writer : Type 0 where
    pub header : GoMap String
    pub status : Option ℕ
    pub body : List (Body Stats Bucket)
    pub noted : ℕ

  -- A handler with the state `S` that it shares with others.
  abbrev pub Handler : Type 0 → Type 0
  Handler S = Request → Writer → S → Writer × S × Outcome Unit

  abbrev pub new_writer : Writer
  new_writer = record { header = []; status = none; body = []; noted = 200 }

  abbrev pub or_else : Option ℕ → ℕ → ℕ
  or_else none n = n
  or_else (some m) n = m

  abbrev pub header_unless_sent : Option ℕ → String → String → GoMap String → GoMap String
  header_unless_sent none k v m = insert k v m
  header_unless_sent (some c) k v m = m

  abbrev pub set_header : String → String → Writer → Writer
  set_header k v w = record w { header = header_unless_sent w.status k v w.header }

  -- The embedded writer's `WriteHeader`, which ignores a second status.
  abbrev pub send_status : ℕ → Writer → Writer
  send_status code w = record w { status = some (or_else w.status code) }

  abbrev pub write_header : ℕ → Writer → Writer
  write_header code w = send_status code (record w { noted = code })

  -- A body that is written without a status is sent with 200.
  abbrev pub write_body : Body Stats Bucket → Writer → Writer
  write_body b w = record (send_status 200 w) { body = b ∷ w.body }

  -- `http.Error` on the embedded writer
  unfoldable pub http_error : String → ℕ → Writer → Writer
  http_error message code w = write_body (plain message) (
      send_status code (
        set_header "X-Content-Type-Options" "nosniff"
          (set_header "Content-Type" "text/plain; charset=utf-8" w)))
