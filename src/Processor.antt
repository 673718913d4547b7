-- ===== src/Processor.antt =====
-- internal/processor/handlers.go. The decoder of JSON is a parameter, and so are the answers of the
-- store and the readings of clocks. An encoding never fails.
pub mod Ingest
pub mod Single
pub mod Steps
pub mod Late
use Prim.Native.String
use distributed_logs_aggrega.Base.{
  ℕ, suc, ◌+◌, String, Bool, true, false, not, ◌&&◌, Option, none, some, List, [], ◌∷◌, length,
  ◌==◌, ltb, eqb, if◌then◌else◌,
}
use distributed_logs_aggrega.Base.Int.{ℤ, pos, ◌+ℤ◌, ◌-ℤ◌}
use distributed_logs_aggrega.Base.Word.{bits64, signed64}
use distributed_logs_aggrega.Base.Outcome.{Outcome, returns, panics}
use distributed_logs_aggrega.Config.Atoi.{atoi}
use distributed_logs_aggrega.Http.{
  Request, Body, error_body, status_body, unhealthy, healthy, ingest_response, event_list,
  stats_body, buckets, counters, Writer, Handler, set_header, write_header, write_body,
}
use distributed_logs_aggrega.Models.{
  LogEvent, Time, IngestRequest, IngestResponse, QueryFilter, zero_time,
}
use distributed_logs_aggrega.Storage.Query.{Found, found, find_failed}
use distributed_logs_aggrega.Storage.Aggregate.{Doubles, Stats, StatsResult, snapshot, stats_failed}
use distributed_logs_aggrega.Storage.Buckets.{Bucket, BucketsResult, bucketed, buckets_failed}
use distributed_logs_aggrega.Ingestion.{Pipeline, stats}
use distributed_logs_aggrega.Ingestion.Submit.{Reading, submit, submit_batch}

pub data Decoded (A : Type 0) : Type 0 where
  decoded : A → Decoded A
  malformed : String → Decoded A

-- `"invalid JSON: " + err.Error()`
abbrev pub invalid_json : String → String
invalid_json e = String.◌++◌ "invalid JSON: " e

-- The clock's readings for the events of a batch, by their positions.
unfoldable pub with_readings : (ℕ → Reading) → ℕ → List LogEvent → List (Reading × LogEvent)
with_readings clock i [] = []
with_readings clock i (ev ∷ evs) = (clock i, ev) ∷ with_readings clock (suc i) evs

abbrev pub hour : ℤ
hour = pos 3600000000000

-- `-d` of an int64
abbrev pub neg64 : ℤ → ℤ
neg64 d = signed64 (bits64 (pos 0 -ℤ d))

-- `if v := …; v != "" { if d, err := time.ParseDuration(v); err == nil { window = d } }`
abbrev pub or_window : Option ℤ → ℤ → ℤ
or_window none window = window
or_window (some d) window = d

module _ (ds : Doubles) where
  abbrev pub ApiBody : Type 0
  ApiBody = Body (Stats ds) Bucket

  abbrev pub ApiWriter : Type 0
  ApiWriter = Writer (Stats ds) Bucket

  abbrev pub Served : Type 0
  Served = ApiWriter × Pipeline × Outcome Unit

  unfoldable pub write_json : ApiWriter → ℕ → ApiBody → ApiWriter
  write_json w status body = write_body (Stats ds) Bucket body (
      write_header (Stats ds) Bucket status
        (set_header (Stats ds) Bucket "Content-Type" "application/json" w))

  -- A handler that answers and returns.
  abbrev pub reply : ApiWriter → ℕ → ApiBody → Pipeline → Served
  reply w status body p = (write_json w status body, p, returns tt)

  -- `ping` is the error of the ping, `uptime` the time since the start in seconds.
  unfoldable pub health : Option String → ℤ → ApiWriter → Pipeline → Served
  health (some e) uptime w p = reply w 503 (unhealthy e) p
  health none uptime w p = reply w 200 (healthy uptime) p

  unfoldable pub ready : ApiWriter → Pipeline → Served
  ready w p = reply w 200 (status_body "ready") p

  abbrev pub batch_status : ℕ → ℕ → ℕ
  batch_status accepted rejected = if eqb accepted 0 && ltb 0 rejected then 503 else 202

  -- A panic of a submission goes through the handler.
  unfoldable pub ingest_reply : ApiWriter → Pipeline × Outcome (ℕ × ℕ) → Served
  ingest_reply w (p, panics e) = (w, p, panics e)
  ingest_reply w (p, returns (accepted, rejected)) =
      reply w (batch_status accepted rejected)
        (ingest_response (record { accepted = accepted; rejected = rejected; errors = [] })) p

  unfoldable pub ingest_events : (ℕ → Reading) → List LogEvent → ApiWriter → Pipeline → Served
  ingest_events clock events w p =
      if eqb (length events) 0
      then reply w 400 (error_body "events array is required") p
      else if ltb 10000 (length events)
      then reply w 413 (error_body "batch too large (max 10000)") p
      else ingest_reply w (submit_batch (with_readings clock 0 events) p)

  unfoldable pub ingest : (ℕ → Reading) → Decoded IngestRequest → ApiWriter → Pipeline → Served
  ingest clock (malformed e) w p = reply w 400 (error_body (invalid_json e)) p
  ingest clock (decoded req) w p = ingest_events clock req.events w p

  unfoldable pub single_reply : ApiWriter → Pipeline × Outcome Bool → Served
  single_reply w (p, panics e) = (w, p, panics e)
  single_reply w (p, returns true) = reply w 202 (status_body "accepted") p
  single_reply w (p, returns false) = reply w 503 (status_body "rejected") p

  unfoldable pub ingest_single : Reading → Decoded LogEvent → ApiWriter → Pipeline → Served
  ingest_single now (malformed e) w p = reply w 400 (error_body (invalid_json e)) p
  ingest_single now (decoded ev) w p = single_reply w (submit now ev p)

  abbrev pub or_limit : Option ℤ → ℤ
  or_limit none = pos 0
  or_limit (some n) = n

  abbrev pub start_of : Time → Option ℤ → Time
  start_of now none = zero_time
  start_of now (some d) = now +ℤ neg64 d

  -- `parse` is time.ParseDuration, with `none` for an error. The empty text is no number and no
  -- duration.
  unfoldable pub filter_of : (String → Option ℤ) → Time → (String → String) → QueryFilter
  filter_of parse now q = record {
    service_name = q "service";
    level = q "level";
    start_time = if q "since" == "" then zero_time else start_of now (parse (q "since"));
    end_time = zero_time;
    search = q "q";
    limit = if q "limit" == "" then pos 0 else or_limit (atoi (q "limit"));
  }

  unfoldable pub query_reply : ApiWriter → Pipeline → Found → Served
  query_reply w p (find_failed e) = reply w 500 (error_body e) p
  query_reply w p (found events) = reply w 200 (event_list (length events) events) p

  unfoldable pub query :
      (QueryFilter → Found) → (String → Option ℤ) → Time → Request → ApiWriter → Pipeline → Served
  query store parse now r w p = query_reply w p (store (filter_of parse now r.param))

  -- The start of the window that the request names, an hour by default.
  unfoldable pub window_start : (String → Option ℤ) → Time → Request → Time
  window_start parse now r =
      now
      +ℤ neg64 (if r.param "window" == "" then hour else or_window (parse (r.param "window")) hour)

  unfoldable pub stats_reply : ApiWriter → Pipeline → StatsResult ds → Served
  stats_reply w p (stats_failed e) = reply w 500 (error_body e) p
  stats_reply w p (snapshot s) = reply w 200 (stats_body s) p

  unfoldable pub stats_handler :
      (Time → StatsResult ds) → (String → Option ℤ) → Time → Request → ApiWriter → Pipeline → Served
  stats_handler store parse now r w p = stats_reply w p (store (window_start parse now r))

  unfoldable pub throughput_reply : ApiWriter → Pipeline → BucketsResult → Served
  throughput_reply w p (buckets_failed e) = reply w 500 (error_body e) p
  throughput_reply w p (bucketed bs) = reply w 200 (buckets bs) p

  unfoldable pub throughput :
      (Time → BucketsResult) → (String → Option ℤ) → Time → Request → ApiWriter → Pipeline → Served
  throughput store parse now r w p = throughput_reply w p (store (window_start parse now r))

  counters_body : ℕ × ℕ × ℕ × ℕ → ApiBody
  counters_body (accepted, rejected, dropped, depth) = counters accepted rejected dropped depth

  unfoldable pub pipeline_stats : ApiWriter → Pipeline → Served
  unfolding counters_body
  pipeline_stats w p = reply w 200 (counters_body (stats p)) p
