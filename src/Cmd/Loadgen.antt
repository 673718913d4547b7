-- ===== src/Cmd/Loadgen.antt =====
-- cmd/loadgen/main.go: the pace, the events, the counters and the exit status; the run of its workers
-- is in Loadgen/Run. Random numbers, clocks, tickers and the HTTP client are arguments.
pub mod Pace
pub mod Events
pub mod Run
pub mod Ending
pub mod Reports
pub mod Totals
use Prim.Native.String
use distributed_logs_aggrega.Base.{
  ℕ, zero, suc, ◌+◌, ◌*◌, String, Bool, true, false, List, [], ◌∷◌, if◌then◌else◌,
}
use distributed_logs_aggrega.Base.Decimal.{decimal}
use distributed_logs_aggrega.Base.Int.{ℤ, pos, negsuc, ◌*ℤ◌, quotient, ltb_ℤ, leb_ℤ, eqb_ℤ}
use distributed_logs_aggrega.Base.Outcome.{Outcome, returns, panics}
use distributed_logs_aggrega.Base.Word.{bits64, signed64, add64}
use distributed_logs_aggrega.Config.{second}
use distributed_logs_aggrega.Models.{
  LogEvent, LogLevel, Time, level_info, level_warn, level_error, level_debug,
}

abbrev pub services : List String
services =
    "api-gateway" ∷ "user-service" ∷ "order-service" ∷ "payment-service" ∷ "inventory-service"
    ∷ "notification-service" ∷ "auth-service" ∷ "search-service" ∷ []

abbrev pub levels : List LogLevel
levels =
    level_info ∷ level_info ∷ level_info ∷ level_info ∷ level_warn ∷ level_error ∷ level_debug ∷ []

abbrev pub messages : List String
messages =
    "request completed successfully" ∷ "cache miss for key user:42"
    ∷ "connection pool exhausted, waiting" ∷ "slow query detected (320ms)"
    ∷ "failed to acquire distributed lock" ∷ "retrying upstream call (attempt 2)"
    ∷ "payment gateway returned 502" ∷ "user authenticated" ∷ "order placed"
    ∷ "inventory check passed" ∷ []

-- What the calls of `rand.Intn`, in range, of the clock and of uuid give.
pub record Draw : Type 0 where
  pub utc : Time
  pub service : ℕ
  pub pod : ℕ
  pub level : ℕ
  pub message : ℕ
  pub uuid : String
  pub host : ℕ

-- An index within the bounds of the list; there is no other.
abbrev pub at : List String → ℕ → String
at [] i = ""
at (x ∷ xs) zero = x
at (x ∷ xs) (suc i) = at xs i

unfoldable pub random_event : Draw → LogEvent
random_event d = record {
  id = "";
  timestamp = d.utc;
  service_name = at services d.service;
  source_id = String.◌++◌ "pod-" (decimal d.pod);
  level = at levels d.level;
  message = at messages d.message;
  trace_id = d.uuid;
  span_id = "";
  host = String.◌++◌ "host-" (decimal d.host);
  environment = "production";
  tags = "region:us-east-1" ∷ [];
  fields = [];
  idempotency_key = "";
}

-- An int64 operation wraps around.
abbrev pub wrap : ℤ → ℤ
wrap z = signed64 (bits64 z)

-- A microsecond, in nanoseconds.
abbrev pub microsecond : ℤ
microsecond = pos 1000

abbrev pub at_least_microsecond : ℤ → ℤ
at_least_microsecond rate = if ltb_ℤ rate microsecond then microsecond else rate

-- `time.Duration(int64(time.Second) / int64(*rps) * int64(*batch))`, and the bound below it
unfoldable pub rate_of : ℤ → ℤ → Outcome ℤ
rate_of rps batch =
    if eqb_ℤ rps (pos 0)
    then panics "integer divide by zero"
    else returns (at_least_microsecond (wrap (wrap (quotient (pos second) rps) *ℤ batch)))

-- The interval of a worker's ticker, which panics unless it is positive.
unfoldable pub interval_of : ℤ → ℤ → Outcome ℤ
interval_of rate workers =
    let d = wrap (rate *ℤ workers) in
    if leb_ℤ d (pos 0) then panics "non-positive interval for NewTicker" else returns d

-- How a request ends: with an error of the client, or with a response, of any status, from whose body
-- `Accepted` is decoded; 0 if it does not decode.
pub data Posted : Type 0 where
  post_failed : String → Posted
  responded : ℕ → ℤ → Posted

pub record Counters : Type 0 where
  pub sent : ℕ
  pub accepted : ℕ
  pub errs : ℕ

abbrev pub zeros : Counters
zeros = record { sent = 0; accepted = 0; errs = 0 }

abbrev pub generate : ℕ → (ℕ → Draw) → List LogEvent
generate zero draw = []
generate (suc n) draw = random_event (draw 0) ∷ generate n (λ i. draw (suc i))

-- The events of a request; `make` panics at a negative number of them.
abbrev pub make_events : ℤ → (ℕ → Draw) → Outcome (List LogEvent)
make_events (pos n) draw = returns (generate n draw)
make_events (negsuc n) draw = panics "makeslice: len out of range"

abbrev pub count_sent : ℤ → Counters → Counters
count_sent batch c = record c { sent = add64 c.sent batch }

-- The status of the response is not read.
abbrev pub count_posted : Posted → Counters → Counters
count_posted (post_failed e) c = record c { errs = add64 c.errs (pos 1) }
count_posted (responded status accepted) c = record c { accepted = add64 c.accepted accepted }

-- `if errs.Load() > 0 { os.Exit(1) }`
unfoldable pub exit_status : Counters → ℕ
exit_status c = if ltb_ℤ (pos 0) (signed64 c.errs) then 1 else 0
