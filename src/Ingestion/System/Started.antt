-- ===== src/Ingestion/System/Started.antt =====
-- How a run of the pipeline begins: `New` and `Start` of internal/ingestion/pipeline.go.
use distributed_logs_aggrega.Base.{◌≡◌, refl, false, Option, [], arith}
use distributed_logs_aggrega.Base.Int.{ℤ, pos, negsuc}
use distributed_logs_aggrega.Base.Channel.{make_chan}
use distributed_logs_aggrega.Base.Outcome.{returns}
use distributed_logs_aggrega.Config.{IngestorConfig}
use distributed_logs_aggrega.Metrics.{Collectors}
use distributed_logs_aggrega.Ingestion
use distributed_logs_aggrega.Ingestion.{Pipeline}
use distributed_logs_aggrega.Ingestion.System.{System, start, workers_of, is_present}

-- A pipeline as it is made: an open and empty queue of the configured capacity.
pub record IsNew (cfg : IngestorConfig) (p : Pipeline) : Type 0 where
  pub cfg_kept : p.cfg ≡ cfg
  pub nothing : p.queue.items ≡ []
  pub is_open : p.queue.closed ≡ false
  pub capacity : pos p.queue.cap ≡ cfg.buffer_size

new-IsNew_at :
    (cfg : IngestorConfig) (cs : Option Collectors) (p : Pipeline) (size : ℤ)
    → cfg.buffer_size ≡ size
    → Ingestion.new cfg cs ≡ returns p
    → IsNew cfg p
unfolding Ingestion.new Ingestion.with_queue make_chan
new-IsNew_at cfg cs p (pos n) e h = ground arith
new-IsNew_at cfg cs p (negsuc n) e h = ground arith

pub new-IsNew :
    (cfg : IngestorConfig) (cs : Option Collectors) (p : Pipeline)
    → Ingestion.new cfg cs ≡ returns p
    → IsNew cfg p
new-IsNew cfg cs p h = new-IsNew_at cfg cs p cfg.buffer_size refl h

-- What `Start` makes of a new pipeline.
pub record IsStarted (p : Pipeline) (s : System) : Type 0 where
  pub pipeline : s.pipeline ≡ p
  pub workers : s.workers ≡ workers_of p.cfg.workers
  pub scraper : s.scraping ≡ is_present p.collectors
  pub live : s.canceled ≡ false
  pub nothing : s.writes ≡ []

pub start-IsStarted : (p : Pipeline) (s : System) → start p ≡ returns s → IsStarted p s
unfolding start
start-IsStarted p s h = ground arith
