-- ===== src/Cmd/Alerter.antt =====
-- cmd/alerter/main.go.
pub mod Exits
pub mod Unwatched
use Prim.Native.String
use distributed_logs_aggrega.Base.{String, Option, none, some}
use distributed_logs_aggrega.Base.Action.{pure, ◌>>=◌, ◌>>◌}
use distributed_logs_aggrega.Config.{Config}
use distributed_logs_aggrega.Config.Load.{LoadResult}
use distributed_logs_aggrega.Models.{Time}
use distributed_logs_aggrega.Storage.Documents.{Items}
use distributed_logs_aggrega.Storage.Setup.{Sent, Mongo}
use distributed_logs_aggrega.Storage.Watch.{FullDocument, watch_errors}
use distributed_logs_aggrega.Alert.Services.{Services}
use distributed_logs_aggrega.Alert.Creation.{Settings, new}
use distributed_logs_aggrega.Alert.Rules.{LoadedRules}
use distributed_logs_aggrega.Alert.Run.{Watched, Begun, begun, not_opened, begin}
use distributed_logs_aggrega.Cmd.Process.{
  Main, Process, Booted, perform, listens, shuts_down, cancels, logs_error, metrics_address, boot,
  run_deferred,
}

-- The case of the `select` that is taken: a signal, or the result of `Run`.
pub data Woken : Type 0 where
  signal : Woken
  run_returned : Option String → Woken

abbrev pub report : Woken → Main Unit
report (run_returned (some e)) = perform (logs_error e)
report _ = pure tt

-- What follows the `select`.
unfoldable pub leave : Mongo → Config → Woken → Main Unit
leave m cfg w = do
  report w
  perform cancels
  perform (shuts_down (metrics_address cfg))
  run_deferred m

-- What follows the start. `select` tells which case is taken; it may depend on what has been sent.
unfoldable pub watch : Mongo → (Booted → Sent → Woken) → Booted → Main Unit
watch m select b = do
  perform (listens (metrics_address b.cfg))
  w ← (λ p. pure (select b p.sent) p)
  leave m b.cfg w

unfoldable pub main : Mongo → LoadResult → (Booted → Sent → Woken) → Main Unit
main m r select = boot m r >>= watch m select

-- The driver's `Watch` on a collection, after what has been sent.
abbrev pub Watcher : Type 0 → Type 0
Watcher Double = Sent → String → String → Items Double → FullDocument → Watched

module _ (sv : Services) (new_breaker : Settings → sv.Breaker) (Double : Type 0) where
  -- `alert.New` and the beginning of `Run`; `rules` is what the first `refreshRules` loads at `now`.
  unfoldable pub begin_run : Watcher Double → Time → LoadedRules → Booted → Sent → Begun sv
  begin_run watcher now rules b sent =
      begin sv now rules (watch_errors Double (watcher sent b.store.db b.store.logs))
        (new sv new_breaker b.cfg.alerter b.store.collectors)

  -- An error of `Run` wakes the `select`; a run that has begun is taken to last until a signal.
  abbrev pub until_signal : Begun sv → Woken
  until_signal (begun s) = signal
  until_signal (not_opened e) = run_returned (some (String.◌++◌ "open change stream: " e))
