-- ===== src/Tests/Commands.antt =====
-- The store's opening, and the commands.
use Prim.Native.String
use distributed_logs_aggrega.Base.{◌≡◌, refl, Bool, true, String, Option, none, some, [], ◌∷◌}
use distributed_logs_aggrega.Base.Action.{ok}
use distributed_logs_aggrega.Base.Int.{ℤ, pos}
use distributed_logs_aggrega.Config.{default}
use distributed_logs_aggrega.Config.Load.{loaded}
use distributed_logs_aggrega.Alert.Creation.{Settings}
use distributed_logs_aggrega.Alert.Rules.{load_failed}
use distributed_logs_aggrega.Alert.Run.{watch_failed, not_opened}
use distributed_logs_aggrega.Cmd.Process.{Booted, started}
use distributed_logs_aggrega.Cmd.Alerter.{Woken, signal, run_returned, Watcher, main}
use distributed_logs_aggrega.Cmd.Alerter.Exits
use distributed_logs_aggrega.Cmd.Alerter.Exits.{Ends, calls}
use distributed_logs_aggrega.Cmd.Alerter.Unwatched.{
  IsFresh, runs, select_run, fresh_boot, first_commands, main-unwatched,
}
use distributed_logs_aggrega.Tests.Alerts.{local}
use distributed_logs_aggrega.Logger.{level_of, warn_level, info_level}
use distributed_logs_aggrega.Storage.Setup
use distributed_logs_aggrega.Storage.Setup.{
  Command, create_collection, command_error, disconnect, Sent, Mongo, DriverError,
}
use distributed_logs_aggrega.Storage.Setup.Errors.{Sound}
use distributed_logs_aggrega.Storage.Setup.Opening.{IsComplete, new-Opens}

-- A database on which a collection appears while it is being created.
abbrev races : Command → Option DriverError
races (create_collection db name opts) = some (command_error (pos 48) "exists")
races c = none

abbrev racing : Mongo
racing = record { answer = λ sent c. races c; names = λ sent db name. ok [] }

new-Opens_example :
    Sound racing [] (Setup.new racing default.mongo_db none [])
    × IsComplete racing default.mongo_db none (Setup.new racing default.mongo_db none [])
new-Opens_example = new-Opens racing default.mongo_db none []

level_in_capitals : (level_of "WARN" ≡ warn_level) × (level_of "Warning" ≡ info_level)
unfolding level_of
level_in_capitals = (refl, refl)

-- An alerter that is stopped by a signal.
abbrev until_stopped : Booted → Sent → Woken
until_stopped b sent = signal

alerter-Ends_example :
    Ends racing until_stopped (loaded default) (main racing (loaded default) until_stopped started)
alerter-Ends_example = Exits.main-Ends racing until_stopped (loaded default)

-- A driver without errors and without collections.
abbrev pub healthy : Mongo
healthy = record { answer = λ sent c. none; names = λ sent db name. ok [] }

abbrev no_streams : Watcher ℤ
no_streams sent db name pipeline o = watch_failed "not supported on a timeseries collection"

abbrev new_breaker : Settings → Bool
new_breaker settings = true

healthy-IsFresh : IsFresh healthy default
healthy-IsFresh = record { answers = λ sent c. refl; unlisted = refl }

main-unwatched_example :
    (e : String) × (runs healthy local new_breaker no_streams
        (pos 7)
        (load_failed "none")
        (fresh_boot healthy default)
        (first_commands healthy default)
      ≡ not_opened e)
    × (main healthy
          (loaded default)
          (select_run healthy local new_breaker no_streams (pos 7) (load_failed "none"))
          started
        ≡ (
          ok tt,
          record {
            sent = disconnect ∷ first_commands healthy default;
            effects = calls default (run_returned (some (String.◌++◌ "open change stream: " e)));
          },
        ))
main-unwatched_example =
    main-unwatched healthy local new_breaker no_streams (pos 7) (load_failed "none") default
      healthy-IsFresh refl
      (λ sent db name pipeline o h. ("not supported on a timeseries collection", refl))
