-- ===== src/Cmd/Process.antt =====
-- What cmd/ingestor/main.go and cmd/alerter/main.go have in common: loading the configuration, the
-- logger, the collectors and the store, and what is deferred.
pub mod Boots
use Prim.Native.String
use distributed_logs_aggrega.Base.{ℕ, String, Option, none, some, List, [], ◌∷◌}
use distributed_logs_aggrega.Base.Action.{Result, ok, err, Action, pure, raise, ◌>>=◌, ◌>>◌}
use distributed_logs_aggrega.Base.Decimal.{decimal_ℤ}
use distributed_logs_aggrega.Base.Int.{ℤ}
use distributed_logs_aggrega.Config.{Config}
use distributed_logs_aggrega.Config.Load.{LoadResult, loaded, parse_error, read_error}
use distributed_logs_aggrega.Logger.{Logger}
use distributed_logs_aggrega.Logger
use distributed_logs_aggrega.Metrics
use distributed_logs_aggrega.Metrics.{Collectors}
use distributed_logs_aggrega.Storage.Setup
use distributed_logs_aggrega.Storage.Setup.{Sent, Mongo, SetupError, Store}

-- The calls of a command besides the store's. A server is given by its address.
pub data Effect : Type 0 where
  listens : String → Effect
  shuts_down : String → Effect
  cancels : Effect
  starts_pipeline : Effect
  stops_pipeline : Effect
  closes_store : Effect
  syncs_log : Effect
  logs_error : String → Effect

-- Both lists have the latest first.
pub record Process : Type 0 where
  pub sent : Sent
  pub effects : List Effect

abbrev pub started : Process
started = record { sent = []; effects = [] }

-- `os.Exit(n)` and `log.Fatal`, which exits with 1, run no deferred call: they raise the status.
abbrev pub Main : Type 0 → Type 0
Main A = Action Process ℕ A

abbrev pub perform : Effect → Main Unit
perform e p = (ok tt, record p { effects = e ∷ p.effects })

abbrev pub exit_status : Result ℕ Unit → ℕ
exit_status (ok u) = 0
exit_status (err n) = n

-- `fmt.Sprintf("%s:%d", host, port)`
unfoldable pub address : String → ℤ → String
address host port = String.◌++◌ host (String.◌++◌ ":" (decimal_ℤ port))

abbrev pub metrics_address : Config → String
metrics_address cfg = address cfg.server.host cfg.server.metrics_port

abbrev pub load_config : LoadResult → Main Config
load_config (loaded cfg) = pure cfg
load_config (parse_error e) = raise 1
load_config (read_error e) = raise 1

abbrev pub or_exit : {E A : Type 0} → Result E A → Result ℕ A
or_exit (ok a) = ok a
or_exit (err e) = err 1

abbrev pub make_logger : Config → Main Logger
make_logger cfg p = (or_exit {E = String} (Logger.new cfg.log.level cfg.log.format), p)

-- `storage.New(ctx, &cfg.MongoDB, log, collectors)`
unfoldable pub open_store : Mongo → Config → Main Store
open_store m cfg p =
    let (r, sent) = Setup.new m cfg.mongo_db (some Metrics.new) p.sent in
    (or_exit r, record p { sent = sent })

pub record Booted : Type 0 where
  pub cfg : Config
  pub logger : Logger
  pub store : Store

unfoldable pub boot : Mongo → LoadResult → Main Booted
boot m r = do
  cfg ← load_config r
  log ← make_logger cfg
  store ← open_store m cfg
  pure (record { cfg = cfg; logger = log; store = store })

-- `defer store.Close(…)`, whose error is dropped
unfoldable pub close_store : Mongo → Main Unit
close_store m p =
    (ok tt, record p { sent = (Setup.close m p.sent).1; effects = closes_store ∷ p.effects })

-- The calls deferred since the start, the last first.
unfoldable pub run_deferred : Mongo → Main Unit
run_deferred m = do close_store m; perform cancels; perform syncs_log
