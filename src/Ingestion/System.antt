-- ===== src/Ingestion/System.antt =====
-- The whole pipeline as a step relation: submissions by the HTTP handlers, the rounds of the workers
-- started by `Start`, the depth scraper, the cancelled context and `Stop`.
pub mod Started
pub mod Bounds
pub mod Conservation
pub mod Drain
pub mod Shutdown
pub mod Waiting
pub mod Refinement
pub mod Duplicates
pub mod InOrder
use distributed_logs_aggrega.Base.{
  ℕ, zero, suc, ◌≡◌, Bool, true, false, ◌||◌, ◌&&◌, Option, none, some, List, [], ◌∷◌, length,
  get_elem?, set, All, if◌then◌else◌,
}
use distributed_logs_aggrega.Base.Int.{ℤ, pos, negsuc, ltb_ℤ, leb_ℤ}
use distributed_logs_aggrega.Base.Channel.{Channel, recv, gets, closes, close_chan}
use distributed_logs_aggrega.Base.Outcome.{Outcome, returns, panics}
use distributed_logs_aggrega.Config.{IngestorConfig}
use distributed_logs_aggrega.Metrics.{Collectors}
use distributed_logs_aggrega.Models.{LogEvent}
use distributed_logs_aggrega.Storage.Insert.{when_present}
use distributed_logs_aggrega.Ingestion.{Pipeline}
use distributed_logs_aggrega.Ingestion.Submit.{Reading, submit}
use distributed_logs_aggrega.Ingestion.Worker.{
  Driver, Wake, context_done, received, channel_closed, ticked, round,
}

pub record Worker : Type 0 where
  pub batch : List LogEvent
  pub running : Bool

-- `scraping` says whether the depth scraper is in its loop, `canceled` whether the context that
-- `Start` was given is cancelled; `writes` are the batches that were handed to the store.
pub record System : Type 0 where
  pub pipeline : Pipeline
  pub workers : List Worker
  pub scraping : Bool
  pub canceled : Bool
  pub writes : List (List LogEvent)

unfoldable pub spawn : ℕ → List Worker
spawn zero = []
spawn (suc n) = record { batch = []; running = true } ∷ spawn n

-- `for i := 0; i < workers; i++`
unfoldable pub workers_of : ℤ → List Worker
workers_of (pos n) = spawn n
workers_of (negsuc n) = []

-- A worker panics at a negative batch size, and at a ticker of no time.
abbrev pub cannot_start : IngestorConfig → Bool
cannot_start cfg = ltb_ℤ cfg.batch_size (pos 0) || leb_ℤ cfg.flush_millis (pos 0)

-- `p.collectors != nil`
abbrev pub is_present : Option Collectors → Bool
is_present none = false
is_present (some c) = true

unfoldable pub start : Pipeline → Outcome System
start p =
    if ltb_ℤ (pos 0) p.cfg.workers && cannot_start p.cfg
    then panics "worker: makeslice or NewTicker"
    else returns (record {
      pipeline = p;
      workers = workers_of p.cfg.workers;
      scraping = is_present p.collectors;
      canceled = false;
      writes = [];
    })

-- One round of worker `i`, whose state is `k`.
unfoldable pub resume : ℕ → Wake → Driver → Worker → System → System
resume i w drv k s =
    let (l, running) =
      round w drv (record { batch = k.batch; pipeline = s.pipeline; writes = s.writes }) in
    record s {
      pipeline = l.pipeline;
      workers = set s.workers i (record { batch = l.batch; running = running });
      writes = l.writes;
    }

abbrev pub with_queue : Channel LogEvent → System → System
with_queue ch s = record s { pipeline = record (s.pipeline) { queue = ch } }

-- `QueueDepth.Set(float64(len(p.in)))`
abbrev set_depth : ℕ → Collectors → Collectors
set_depth n c = record c { queue_depth = n }

-- Others that share the collectors, such as the middleware, count on them too.
abbrev pub observe : (Collectors → Collectors) → System → System
observe f s = record s {
  pipeline = record (s.pipeline) { collectors = when_present f s.pipeline.collectors };
}

abbrev pub scrape : System → System
scrape s = observe (set_depth (length s.pipeline.queue.items)) s

-- What `Stop` waits for after it has closed the queue: the end of every goroutine that `Start` has
-- begun.
abbrev pub IsDone : System → Type 0
IsDone s = All (λ (k : Worker). k.running ≡ false) s.workers × (s.scraping ≡ false)

-- Worker `i` is in its loop, in state `k`.
abbrev pub Runs : System → ℕ → Worker → Type 0
Runs s i k = (get_elem? s.workers i ≡ some k) × (k.running ≡ true)

-- Where several cases of a `select` are ready, any of them may be taken.
pub data Step (s t : System) : Type 0 where
  submits :
      (r : Reading) (ev : LogEvent)
      → t ≡ record s { pipeline = (submit r ev s.pipeline).0 }
      → Step s t
  stops :
      (i : ℕ) (k : Worker) (drv : Driver)
      → Runs s i k
      → s.canceled ≡ true
      → t ≡ resume i context_done drv k s
      → Step s t
  receives :
      (i : ℕ) (k : Worker) (drv : Driver) (ev : LogEvent) (ch : Channel LogEvent)
      → Runs s i k
      → recv s.pipeline.queue ≡ gets ev ch
      → t ≡ resume i (received ev) drv k (with_queue ch s)
      → Step s t
  drained :
      (i : ℕ) (k : Worker) (drv : Driver)
      → Runs s i k
      → recv s.pipeline.queue ≡ closes
      → t ≡ resume i channel_closed drv k s
      → Step s t
  ticks : (i : ℕ) (k : Worker) (drv : Driver) → Runs s i k → t ≡ resume i ticked drv k s → Step s t
  scrapes : s.scraping ≡ true → t ≡ scrape s → Step s t
  observes : (f : Collectors → Collectors) → t ≡ observe f s → Step s t
  scraper_leaves :
      s.scraping ≡ true → s.canceled ≡ true → t ≡ record s { scraping = false } → Step s t
  cancels : t ≡ record s { canceled = true } → Step s t
  stop :
      (ch : Channel LogEvent)
      → close_chan s.pipeline.queue ≡ returns ch
      → t ≡ with_queue ch s
      → Step s t

pub data Reach (s : System) : System → Type 0 where
  here : Reach s s
  next : {t u : System} → Reach s t → Step t u → Reach s u
