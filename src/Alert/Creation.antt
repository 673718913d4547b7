-- ===== src/Alert/Creation.antt =====
-- `New` of internal/alert/dispatcher.go. The breaker of sony/gobreaker is made by `new_breaker` from
-- its settings.
use distributed_logs_aggrega.Base.{ℕ, ◌*◌, String, Bool, Option, [], leb}
use distributed_logs_aggrega.Config.{AlerterConfig, second}
use distributed_logs_aggrega.Metrics.{Collectors}
use distributed_logs_aggrega.Models.{zero_time}
use distributed_logs_aggrega.Alert.Services.{Services, Dispatcher}

-- `gobreaker.Settings`, durations in nanoseconds. `ready_to_trip` reads the consecutive failures, the
-- only one of the counts that is read; `OnStateChange` writes a log line.
pub record Settings : Type 0 where
  pub name : String
  pub max_requests : ℕ
  pub interval : ℕ
  pub timeout : ℕ
  pub ready_to_trip : ℕ → Bool

abbrev pub breaker_settings : Settings
breaker_settings = record {
  name = "alert-dispatcher";
  max_requests = 3;
  interval = 30 * second;
  timeout = 20 * second;
  ready_to_trip = λ consecutive_failures. leb 5 consecutive_failures;
}

module _ (sv : Services) (new_breaker : Settings → sv.Breaker) where
  -- There are no rules before the first refresh.
  unfoldable pub new : AlerterConfig → Option Collectors → Dispatcher sv
  new cfg cs = record {
    cfg = cfg;
    collectors = cs;
    breaker = new_breaker breaker_settings;
    rules = [];
    rules_at = zero_time;
    sent = [];
  }
