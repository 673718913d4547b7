-- ===== src/Metrics.antt =====
-- internal/metrics/metrics.go. The Prometheus library is not modelled: a collector is what the
-- program has told it so far, a counter the sum of its `Inc` and `Add` calls, a gauge its last
-- `Set`, a histogram its observations with the latest first (latencies in nanoseconds).
use distributed_logs_aggrega.Base.{ℕ, String, List, []}
use distributed_logs_aggrega.Base.Int.{ℤ, pos}

-- The labels "method", "path" and "status".
pub record RequestLabels : Type 0 where
  pub method : String
  pub path : String
  pub status : ℕ

pub record Collectors : Type 0 where
  pub ingested_total : ℤ
  pub rejected_total : ℕ
  pub write_latency : List ℕ
  pub write_errors : ℕ
  pub queue_depth : ℕ
  pub batch_size : List ℕ
  pub alerts_fired_total : ℕ
  pub requests_total : List RequestLabels
  pub request_latency : List (String × String × ℕ)

abbrev pub new : Collectors
new = record {
  ingested_total = pos 0;
  rejected_total = 0;
  write_latency = [];
  write_errors = 0;
  queue_depth = 0;
  batch_size = [];
  alerts_fired_total = 0;
  requests_total = [];
  request_latency = [];
}
