-- ===== src/Ingestion.antt =====
-- internal/ingestion/pipeline.go: the pipeline's state, its construction and its counters. The
-- store and the logger are no fields: the driver's answers are arguments of the operations that
-- reach it, and log lines are not modelled. A counter is the bit pattern of its int64.
pub mod Dedup
pub mod Submit
pub mod Worker
pub mod System
pub mod Buffer
use distributed_logs_aggrega.Base.{ℕ, Option, length}
use distributed_logs_aggrega.Base.Channel.{Channel, make_chan}
use distributed_logs_aggrega.Base.Outcome.{Outcome, returns, panics}
use distributed_logs_aggrega.Config.{IngestorConfig}
use distributed_logs_aggrega.Metrics.{Collectors}
use distributed_logs_aggrega.Models.{LogEvent}

pub record Pipeline : Type 0 where
  pub cfg : IngestorConfig
  pub collectors : Option Collectors
  pub queue : Channel LogEvent
  pub dedup : Dedup.Dedup
  pub accepted : ℕ
  pub rejected : ℕ
  pub dropped : ℕ

unfoldable pub with_queue :
    IngestorConfig → Option Collectors → Outcome (Channel LogEvent) → Outcome Pipeline
with_queue cfg cs (panics e) = panics e
with_queue cfg cs (returns ch) = returns (record {
  cfg = cfg;
  collectors = cs;
  queue = ch;
  dedup = Dedup.empty;
  accepted = 0;
  rejected = 0;
  dropped = 0;
})

-- `make` panics at a negative buffer size.
unfoldable pub new : IngestorConfig → Option Collectors → Outcome Pipeline
new cfg cs = with_queue cfg cs (make_chan cfg.buffer_size)

-- accepted, rejected, dropped, depth
unfoldable pub stats : Pipeline → ℕ × ℕ × ℕ × ℕ
stats p = (p.accepted, p.rejected, p.dropped, length p.queue.items)
