-- ===== src/Cmd/Ingestor.antt =====
-- cmd/ingestor/main.go: the start, serving and the shutdown. Ingestor/Routes has the table of routes,
-- and Ingestor/Api what is answered to a request.
pub mod Routes
pub mod Api
pub mod Ends
pub mod Accounts
use distributed_logs_aggrega.Base.{String, true, Option}
use distributed_logs_aggrega.Base.Action.{ok, err, pure, raise, ◌>>=◌, ◌>>◌}
use distributed_logs_aggrega.Base.Channel.{Channel, close_chan}
use distributed_logs_aggrega.Base.Outcome.{Outcome, returns, panics}
use distributed_logs_aggrega.Config.{Config, IngestorConfig}
use distributed_logs_aggrega.Config.Load.{LoadResult}
use distributed_logs_aggrega.Metrics.{Collectors}
use distributed_logs_aggrega.Models.{LogEvent}
use distributed_logs_aggrega.Storage.Setup.{Mongo}
use distributed_logs_aggrega.Ingestion
use distributed_logs_aggrega.Ingestion.{Pipeline}
use distributed_logs_aggrega.Ingestion.System.{System, start, with_queue}
use distributed_logs_aggrega.Cmd.Process.{
  Main, Process, Booted, perform, listens, shuts_down, cancels, starts_pipeline, stops_pipeline,
  logs_error, address, metrics_address, boot, run_deferred,
}

abbrev pub api_address : Config → String
api_address cfg = address cfg.server.host cfg.server.port

-- Why serving ends: a signal, or an error of the listener of the API.
pub data Interruption : Type 0 where
  signal : Interruption
  api_failed : String → Interruption

module _ (m : Mongo) where
  -- A panic of main's goroutine runs what is deferred before the process ends with status 2.
  abbrev pub crash : {A : Type 0} → Main A
  crash = do run_deferred m; raise 2

  -- A panic of a worker ends the process at once.
  abbrev pub or_die : Outcome System → Main System
  or_die (panics e) = raise 2
  or_die (returns s) = do perform starts_pipeline; pure s

  abbrev pub start_new : Outcome Pipeline → Main System
  start_new (panics e) = crash
  start_new (returns p) = or_die (start p)

  unfoldable pub start_pipeline : IngestorConfig → Option Collectors → Main System
  start_pipeline cfg cs = start_new (Ingestion.new cfg cs)

  -- `log.Fatal` at an error of the API's listener
  abbrev pub until : System × Interruption → Main System
  until (s, signal) = pure s
  until (s, api_failed e) = do perform (logs_error e); raise 1

  -- `pipeline.Stop()`: what the goroutines do until it returns is `finish`.
  abbrev pub stop_closed : (System → System) → System → Outcome (Channel LogEvent) → Main System
  stop_closed finish s (panics e) = crash
  stop_closed finish s (returns ch) = do perform stops_pipeline; pure (finish (with_queue ch s))

  unfoldable pub stop_pipeline : (System → System) → System → Main System
  stop_pipeline finish s = stop_closed finish s (close_chan s.pipeline.queue)

  abbrev pub cancel_context : System → System
  cancel_context s = record s { canceled = true }

  -- The shutdown, after the signal. An error of either `Shutdown` is dropped; the deferred
  -- `shutdownCancel` only releases the context of the timeout, and is left out.
  unfoldable pub shut_down : (System → System) → Config → System → Main System
  shut_down finish cfg s = do
    perform (shuts_down (api_address cfg))
    perform (shuts_down (metrics_address cfg))
    perform cancels
    t ← stop_pipeline finish (cancel_context s)
    run_deferred m
    pure t

  -- `serve` is what happens to the pipeline until serving ends, and why it ends.
  module _ (serve : System → System × Interruption) (finish : System → System) where
    unfoldable pub serve_api : Config → System → Main System
    serve_api cfg s = do
      perform (listens (api_address cfg))
      perform (listens (metrics_address cfg))
      t ← until (serve s)
      shut_down finish cfg t

    unfoldable pub run : Booted → Main System
    run b = start_pipeline b.cfg.ingestor b.store.collectors >>= serve_api b.cfg

    unfoldable pub main : LoadResult → Main System
    main r = boot m r >>= run
