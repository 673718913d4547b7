-- ===== src/Tests/Data.antt =====
-- Events, pipelines and services that the tests share.
use distributed_logs_aggrega.Base.{ℕ, String, Bool, false, some, List, [], ◌∷◌}
use distributed_logs_aggrega.Base.Int.{pos}
use distributed_logs_aggrega.Base.Channel.{Channel}
use distributed_logs_aggrega.Config.{IngestorConfig}
use distributed_logs_aggrega.Metrics
use distributed_logs_aggrega.Models.{LogEvent}
use distributed_logs_aggrega.Ingestion.{Pipeline}
use distributed_logs_aggrega.Ingestion.Dedup.{empty}
use distributed_logs_aggrega.Ingestion.Submit.{Reading}

-- An event of a service, at a level, with a message and a key.
abbrev pub event : String → String → String → LogEvent
event level message key = record {
  id = "";
  timestamp = pos 0;
  service_name = "orders";
  source_id = "pod-1";
  level = level;
  message = message;
  trace_id = "";
  span_id = "";
  host = "";
  environment = "production";
  tags = [];
  fields = [];
  idempotency_key = key;
}

abbrev pub order_placed : LogEvent
order_placed = event "INFO" "order placed" "k1"

abbrev pub out_of_memory : LogEvent
out_of_memory = event "FATAL" "out of memory" ""

abbrev pub at : ℕ → Reading
at unix = record { utc = pos 1; unix = unix }

abbrev pub small_cfg : IngestorConfig
small_cfg = record {
  workers = pos 1;
  buffer_size = pos 1;
  batch_size = pos 2;
  flush_millis = pos 250;
}

abbrev pub queue_of : List LogEvent → Bool → Channel LogEvent
queue_of items closed = record { items = items; cap = 1; closed = closed }

abbrev pub pipeline_of : Channel LogEvent → Pipeline
pipeline_of queue = record {
  cfg = small_cfg;
  collectors = some Metrics.new;
  queue = queue;
  dedup = empty;
  accepted = 0;
  rejected = 0;
  dropped = 0;
}

abbrev pub small : Pipeline
small = pipeline_of (queue_of [] false)

abbrev pub full : Pipeline
full = pipeline_of (queue_of (out_of_memory ∷ []) false)
