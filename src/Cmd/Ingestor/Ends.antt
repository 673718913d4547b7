-- ===== src/Cmd/Ingestor/Ends.antt =====
-- How the ingestor ends.
use distributed_logs_aggrega.Base.{ℕ, ◌≡◌, refl, ap, ◌⊎◌, inl, inr, Option, List, [], ◌∷◌}
use distributed_logs_aggrega.Base.Action.{Result, ok, err, continue, pure, ◌>>=◌, ◌>>◌}
use distributed_logs_aggrega.Base.Channel.{Channel, close_chan}
use distributed_logs_aggrega.Base.Outcome.{Outcome, returns, panics}
use distributed_logs_aggrega.Config.{Config}
use distributed_logs_aggrega.Config.Load.{LoadResult, loaded}
use distributed_logs_aggrega.Metrics.{Collectors}
use distributed_logs_aggrega.Models.{LogEvent}
use distributed_logs_aggrega.Storage.Setup.{Mongo, call, close}
use distributed_logs_aggrega.Ingestion
use distributed_logs_aggrega.Ingestion.{Pipeline}
use distributed_logs_aggrega.Ingestion.System.{System, start, with_queue}
use distributed_logs_aggrega.Cmd.Process
use distributed_logs_aggrega.Cmd.Process.{
  Effect, Process, started, Main, Booted, boot, run_deferred, close_store, listens, shuts_down,
  starts_pipeline, stops_pipeline, closes_store, syncs_log, metrics_address,
}
use distributed_logs_aggrega.Cmd.Process.Boots.{Boots, boot-Boots}
use distributed_logs_aggrega.Cmd.Ingestor.{
  Interruption, signal, api_failed, api_address, start_new, or_die, start_pipeline, until,
  stop_closed, stop_pipeline, cancel_context, shut_down, serve_api, run, main,
}

-- All calls of a run that reaches its end, the latest first.
abbrev pub calls : Config → List Effect
calls cfg =
    syncs_log
    ∷ Process.cancels
    ∷ closes_store
    ∷ stops_pipeline
    ∷ Process.cancels
    ∷ shuts_down (metrics_address cfg)
    ∷ shuts_down (api_address cfg)
    ∷ listens (metrics_address cfg)
    ∷ listens (api_address cfg)
    ∷ starts_pipeline
    ∷ []

module _ (m : Mongo) (serve : System → System × Interruption) (finish : System → System) where
  -- The pipeline is started, serves until the signal, is cancelled, closed, and left.
  pub record Ended (r : LoadResult) (t : System) (p : Process) : Type 0 where
    pub cfg : Config
    pub collectors : Option Collectors
    pub pipeline : Pipeline
    pub first : System
    pub queue : Channel LogEvent
    pub loads : r ≡ loaded cfg
    pub made : Ingestion.new cfg.ingestor collectors ≡ returns pipeline
    pub begun : start pipeline ≡ returns first
    pub closes : close_chan (serve first).0.pipeline.queue ≡ returns queue
    pub last : t ≡ finish (with_queue queue (cancel_context m (serve first).0))
    pub effects : p.effects ≡ calls cfg

  abbrev pub Ends : LoadResult → Result ℕ System × Process → Type 0
  Ends r (ok t, p) = Ended r t p
  Ends r (err n, p) = (n ≡ 1) ⊎ (n ≡ 2)

  -- Before the pipeline is stopped, `s` is what serving has left.
  stop-Ends :
      (r : LoadResult) (cfg : Config) (cs : Option Collectors) (q : Pipeline) (first s : System)
      (x : Outcome (Channel LogEvent)) (p : Process)
      → r ≡ loaded cfg
      → Ingestion.new cfg.ingestor cs ≡ returns q
      → start q ≡ returns first
      → (serve first).0 ≡ s
      → close_chan s.pipeline.queue ≡ x
      → syncs_log ∷ Process.cancels ∷ closes_store ∷ stops_pipeline ∷ p.effects ≡ calls cfg
      → Ends r ((stop_closed m finish (cancel_context m s) x >>= λ t. run_deferred m >> pure t) p)
  unfolding run_deferred close_store close call
  stop-Ends r cfg cs q first s (panics e) p loads made begun served closes effects = inr refl
  stop-Ends r cfg cs q first s (returns ch) p loads made begun served closes effects = record {
    cfg = cfg;
    collectors = cs;
    pipeline = q;
    first = first;
    queue = ch;
    loads = loads;
    made = made;
    begun = begun;
    closes = rw served closes;
    last = rw served refl;
    effects = effects;
  }

  until-Ends :
      (r : LoadResult) (cfg : Config) (cs : Option Collectors) (q : Pipeline) (first : System)
      (x : System × Interruption) (p : Process)
      → r ≡ loaded cfg
      → Ingestion.new cfg.ingestor cs ≡ returns q
      → start q ≡ returns first
      → serve first ≡ x
      → p.effects ≡ listens (metrics_address cfg) ∷ listens (api_address cfg) ∷ starts_pipeline ∷ []
      → Ends r ((until m x >>= shut_down m finish cfg) p)
  unfolding shut_down stop_pipeline
  until-Ends r cfg cs q first (s, api_failed e) p loads made begun served effects = inl refl
  until-Ends r cfg cs q first (s, signal) p loads made begun served effects =
      stop-Ends r cfg cs q first s (close_chan s.pipeline.queue)
        (record p {
          effects =
              Process.cancels
              ∷ shuts_down (metrics_address cfg)
              ∷ shuts_down (api_address cfg)
              ∷ p.effects;
        })
        loads made begun (ap (λ x. x.0) served) refl (rw effects refl)

  start_new-Ends :
      (r : LoadResult) (cfg : Config) (cs : Option Collectors) (q : Pipeline) (x : Outcome System)
      (p : Process)
      → r ≡ loaded cfg
      → Ingestion.new cfg.ingestor cs ≡ returns q
      → start q ≡ x
      → p.effects ≡ []
      → Ends r ((or_die m x >>= serve_api m serve finish cfg) p)
  unfolding serve_api
  start_new-Ends r cfg cs q (panics e) p loads made begun quiet = inr refl
  start_new-Ends r cfg cs q (returns first) p loads made begun quiet =
      until-Ends r cfg cs q first (serve first) _ loads made begun refl (rw quiet refl)

  start-Ends :
      (r : LoadResult) (cfg : Config) (cs : Option Collectors) (x : Outcome Pipeline) (p : Process)
      → r ≡ loaded cfg
      → Ingestion.new cfg.ingestor cs ≡ x
      → p.effects ≡ []
      → Ends r ((start_new m x >>= serve_api m serve finish cfg) p)
  unfolding run_deferred close_store close call
  start-Ends r cfg cs (panics e) p loads made quiet = inr refl
  start-Ends r cfg cs (returns q) p loads made quiet =
      start_new-Ends r cfg cs q (start q) p loads made refl quiet

  continue-Ends :
      (r : LoadResult) (x : Result ℕ Booted) (p : Process)
      → Boots m r (x, p)
      → Ends r (continue (run m serve finish) x p)
  unfolding run start_pipeline
  continue-Ends r (ok b) p h = start-Ends r b.cfg b.store.collectors _ p h.0 refl h.2
  continue-Ends r (err n) p h = inl h.0

  pub main-Ends : (r : LoadResult) → Ends r (main m serve finish r started)
  unfolding main
  main-Ends r = continue-Ends r (boot m r started).0 (boot m r started).1 (boot-Boots m r)
