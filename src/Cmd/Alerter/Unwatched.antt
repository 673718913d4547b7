-- ===== src/Cmd/Alerter/Unwatched.antt =====
-- The alerter on a time-series collection, which `New` of internal/storage/mongo.go creates unless
-- the configuration says otherwise.
use Prim.Native.String
use distributed_logs_aggrega.Base.{
  ◌≡◌, refl, String, Bool, true, false, ◌==◌, ◌&&◌, ◌||◌, Option, none, some, [], arith, eq_iff,
  ◌∷◌,
}
use distributed_logs_aggrega.Base.Action.{ok}
use distributed_logs_aggrega.Config.{Config}
use distributed_logs_aggrega.Config.Load.{loaded}
use distributed_logs_aggrega.Logger
use distributed_logs_aggrega.Metrics
use distributed_logs_aggrega.Models.{Time}
use distributed_logs_aggrega.Storage.Documents.{Items}
use distributed_logs_aggrega.Storage.Setup
use distributed_logs_aggrega.Storage.Setup.{
  DriverError, Command, connect, ping, list_collection_names, create_collection, create_many,
  disconnect, Sent, Mongo, Store, client_options, store_of, time_series_options, index_models,
  CreateOptions,
}
use distributed_logs_aggrega.Storage.Setup.Errors.{has_time_series}
use distributed_logs_aggrega.Storage.Watch.{
  FullDocument, update_lookup, watch_pipeline, watch_errors,
}
use distributed_logs_aggrega.Alert.Services.{Services}
use distributed_logs_aggrega.Alert.Creation.{Settings}
use distributed_logs_aggrega.Alert.Rules.{LoadedRules}
use distributed_logs_aggrega.Alert.Run.{watch_failed, Begun, not_opened, begin}
use distributed_logs_aggrega.Cmd.Process.{Booted, started, boot, open_store}
use distributed_logs_aggrega.Cmd.Process.Boots.{opening}
use distributed_logs_aggrega.Cmd.Alerter.{
  Watcher, begin_run, until_signal, run_returned, watch, main, Woken,
}
use distributed_logs_aggrega.Cmd.Alerter.Exits.{calls, leave_lem}

module _ (m : Mongo) where
  abbrev creates_time_series : String → String → Command → Bool
  creates_time_series db name (create_collection d n opts) =
      d == db && (n == name && has_time_series opts.time_series)
  creates_time_series db name _ = false

  abbrev succeeded : Option DriverError → Bool
  succeeded none = true
  succeeded (some e) = false

  -- The collection was created as a time-series collection.
  abbrev pub is_time_series : String → String → Sent → Bool
  is_time_series db name [] = false
  is_time_series db name (c ∷ sent) =
      creates_time_series db name c && succeeded (m.answer sent c) || is_time_series db name sent

  -- What MongoDB documents: a time-series collection has no change streams.
  abbrev pub RefusesTimeSeries : {Double : Type 0} → Watcher Double → Type 0
  RefusesTimeSeries {Double} watcher =
      (sent : Sent) (db name : String) (pipeline : Items Double) (o : FullDocument)
      → is_time_series db name sent ≡ true
      → (e : String) × (watcher sent db name pipeline o ≡ watch_failed e)

  -- The commands before the listing.
  abbrev pub connecting : Config → Sent
  connecting cfg = ping ∷ connect (client_options cfg.mongo_db) ∷ []

  -- The driver reports no error, and finds no collection of logs.
  pub record IsFresh (cfg : Config) : Type 0 where
    pub answers : (sent : Sent) (c : Command) → m.answer sent c ≡ none
    pub unlisted : m.names (connecting cfg) cfg.mongo_db.database cfg.mongo_db.collection ≡ ok []

  -- The commands of the opening, the latest first.
  abbrev pub first_commands : Config → Sent
  first_commands cfg =
      create_many cfg.mongo_db.database cfg.mongo_db.collection index_models
      ∷ create_collection cfg.mongo_db.database cfg.mongo_db.collection
          (time_series_options cfg.mongo_db)
      ∷ list_collection_names cfg.mongo_db.database cfg.mongo_db.collection
      ∷ connecting cfg

  opening_fresh :
      (cfg : Config)
      → IsFresh cfg
      → cfg.mongo_db.time_series ≡ true
      → opening m cfg ≡ (ok (store_of cfg.mongo_db (some Metrics.new)), first_commands cfg)
  unfolding Setup.new Setup.call Setup.ensure_collections Setup.list_names Setup.create_missing
      Setup.create_time_series Setup.ensure_indexes
  opening_fresh cfg f ts =
      rw
        (
          f.answers [] (connect (client_options cfg.mongo_db)),
          f.answers (connect (client_options cfg.mongo_db) ∷ []) ping,
          f.unlisted,
          ts,
          f.answers _ (
              create_collection cfg.mongo_db.database cfg.mongo_db.collection
                (time_series_options cfg.mongo_db)),
        )
        refl

  first_commands-time_series :
      (cfg : Config)
      → IsFresh cfg
      → is_time_series cfg.mongo_db.database cfg.mongo_db.collection (first_commands cfg) ≡ true
  first_commands-time_series cfg f = ground (
    arith,
    f.answers (list_collection_names cfg.mongo_db.database cfg.mongo_db.collection ∷ connecting cfg)
        (create_collection cfg.mongo_db.database cfg.mongo_db.collection
          (time_series_options cfg.mongo_db)),
    eq_iff cfg.mongo_db.database cfg.mongo_db.database,
    eq_iff cfg.mongo_db.collection cfg.mongo_db.collection,
  )

  abbrev pub fresh_boot : Config → Booted
  fresh_boot cfg = record {
    cfg = cfg;
    logger = record {
      level = Logger.level_of cfg.log.level;
      encoder = Logger.encoder_of cfg.log.format;
      time_key = "ts";
      adds_caller = true;
    };
    store = store_of cfg.mongo_db (some Metrics.new);
  }

  boot_fresh :
      (cfg : Config)
      → IsFresh cfg
      → cfg.mongo_db.time_series ≡ true
      → boot m (loaded cfg) started
        ≡ (ok (fresh_boot cfg), record { sent = first_commands cfg; effects = [] })
  unfolding boot open_store Logger.new
  boot_fresh cfg f ts = rw (opening_fresh cfg f ts) refl

  module _ {Double : Type 0} (sv : Services) (new_breaker : Settings → sv.Breaker)
      (watcher : Watcher Double) (now : Time) (rules : LoadedRules) where
    abbrev pub runs : Booted → Sent → Begun sv
    runs = begin_run sv new_breaker Double watcher now rules

    abbrev pub select_run : Booted → Sent → Woken
    select_run b sent = until_signal sv new_breaker Double (runs b sent)

    begin_refused :
        (b : Booted) (sent : Sent) (e : String)
        → watcher sent b.store.db b.store.logs (watch_pipeline Double) update_lookup
          ≡ watch_failed e
        → runs b sent ≡ not_opened e
    unfolding begin_run watch_errors begin
    begin_refused b sent e h = rw h refl

    -- On a database without the collection of logs, whose driver reports no error, and as MongoDB has
    -- no change streams on time-series collections, an alerter that is configured for one creates it
    -- and gets no change stream on it: `Run` returns an error before it evaluates anything, which is
    -- logged, and the alerter exits with 0.
    pub main-unwatched :
        (cfg : Config)
        → IsFresh cfg
        → cfg.mongo_db.time_series ≡ true
        → RefusesTimeSeries watcher
        → (e : String) × (runs (fresh_boot cfg) (first_commands cfg) ≡ not_opened e)
          × (main m (loaded cfg) select_run started ≡ (
            ok tt,
            record {
              sent = disconnect ∷ first_commands cfg;
              effects = calls cfg (run_returned (some (String.◌++◌ "open change stream: " e)));
            },
          ))
    unfolding main watch
    main-unwatched cfg f ts refuses =
        let (e, h) =
          refuses (first_commands cfg) cfg.mongo_db.database cfg.mongo_db.collection
            (watch_pipeline Double) update_lookup (first_commands-time_series cfg f) in
        let refused = begin_refused (fresh_boot cfg) (first_commands cfg) e h in
        (e, refused, rw (boot_fresh cfg f ts) (rw refused (leave_lem m select_run cfg _ _)))
