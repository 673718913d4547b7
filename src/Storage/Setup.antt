-- ===== src/Storage/Setup.antt =====
-- `New`, `ensureCollections`, `ensureIndexes` and `Close` of internal/storage/mongo.go. The driver
-- is what it answers to a command after the commands sent before. The deadline that `New` sets is
-- the driver's affair: it shows as an answer.
pub mod Errors
pub mod Opening
use distributed_logs_aggrega.Base.{
  ℕ, ◌*◌, String, Bool, true, false, Option, none, some, List, [], ◌∷◌, length, ltb, if◌then◌else◌,
}
use distributed_logs_aggrega.Base.Int.{ℤ, pos, negsuc, pos_part, eqb_ℤ, ltb_ℤ}
use distributed_logs_aggrega.Base.Word.{bits64, signed64}
use distributed_logs_aggrega.Base.Action.{Result, ok, err, Action, pure, raise, ◌>>=◌, ◌>>◌}
use distributed_logs_aggrega.Config.{MongoDbConfig}
use distributed_logs_aggrega.Metrics.{Collectors}

-- An error of the driver: a `mongo.CommandError` with its code, or another one.
pub data DriverError : Type 0 where
  command_error : ℤ → String → DriverError
  driver_error : String → DriverError

pub record ClientOptions : Type 0 where
  pub uri : String
  pub max_pool_size : ℕ
  pub min_pool_size : ℕ
  pub retry_writes : Bool

pub record TimeSeriesOptions : Type 0 where
  pub time_field : String
  pub meta_field : String
  pub granularity : String

pub record CreateOptions : Type 0 where
  pub time_series : Option TimeSeriesOptions
  pub expire_after_seconds : Option ℤ

-- `keys` is a `bson.D`; `sparse` is an option that may not be set.
pub record IndexModel : Type 0 where
  pub keys : List (String × ℤ)
  pub name : String
  pub sparse : Option Bool

-- The calls of the driver. A collection is given by its database and its name.
pub data Command : Type 0 where
  connect : ClientOptions → Command
  ping : Command
  list_collection_names : String → String → Command
  create_collection : String → String → CreateOptions → Command
  create_many : String → String → List IndexModel → Command
  disconnect : Command

-- The commands sent so far, the latest first.
abbrev pub Sent : Type 0
Sent = List Command

-- `answer` is the error that a command returns, `names` what `ListCollectionNames` finds under a
-- name.
pub record Mongo : Type 0 where
  pub answer : Sent → Command → Option DriverError
  pub names : Sent → String → String → Result DriverError (List String)

-- `fmt.Errorf("…: %w", err)`, or the error itself behind an empty prefix
pub record SetupError : Type 0 where
  pub prefix : String
  pub cause : DriverError

abbrev pub wrapped : String → DriverError → SetupError
wrapped prefix e = record { prefix = prefix; cause = e }

-- The fields `db`, `logs` and `rules` are names here.
pub record Store : Type 0 where
  pub db : String
  pub logs : String
  pub rules : String
  pub cfg : MongoDbConfig
  pub collectors : Option Collectors

abbrev pub Setup : Type 0 → Type 0
Setup A = Action Sent SetupError A

abbrev pub client_options : MongoDbConfig → ClientOptions
client_options cfg = record {
  uri = cfg.uri;
  max_pool_size = cfg.max_pool_size;
  min_pool_size = cfg.min_pool_size;
  retry_writes = true;
}

abbrev pub store_of : MongoDbConfig → Option Collectors → Store
store_of cfg cs = record {
  db = cfg.database;
  logs = cfg.collection;
  rules = cfg.rules_collection;
  cfg = cfg;
  collectors = cs;
}

-- `if s.cfg.TTLDays > 0 { createOpts.SetExpireAfterSeconds(int64(s.cfg.TTLDays) * 24 * 60 * 60) }`
unfoldable pub expire_after : ℤ → Option ℤ
expire_after days =
    if ltb_ℤ (pos 0) days
    then some (signed64 (bits64 (pos (pos_part days * 24 * 60 * 60))))
    else none

abbrev pub time_series_options : MongoDbConfig → CreateOptions
time_series_options cfg = record {
  time_series =
      some
        (record { time_field = "timestamp"; meta_field = "service_name"; granularity = "seconds" });
  expire_after_seconds = expire_after cfg.ttl_days;
}

abbrev pub plain_options : CreateOptions
plain_options = record { time_series = none; expire_after_seconds = none }

abbrev pub index_models : List IndexModel
index_models =
    record {
      keys = ("timestamp", negsuc 0) ∷ ("level", pos 1) ∷ ("service_name", pos 1) ∷ [];
      name = "ts_level_service";
      sparse = none;
    }
    ∷ record {
      keys = ("service_name", pos 1) ∷ ("timestamp", negsuc 0) ∷ [];
      name = "service_ts";
      sparse = none;
    }
    ∷ record { keys = ("trace_id", pos 1) ∷ []; name = "trace_id"; sparse = some true }
    ∷ []

-- `errors.As(err, &cmdErr) && cmdErr.Code == 48`
abbrev pub is_namespace_exists : DriverError → Bool
is_namespace_exists (command_error code e) = eqb_ℤ code (pos 48)
is_namespace_exists (driver_error e) = false

module _ (m : Mongo) where
  abbrev pub outcome : (DriverError → SetupError) → Option DriverError → Result SetupError Unit
  outcome wrap none = ok tt
  outcome wrap (some e) = err (wrap e)

  -- A call whose error is returned.
  unfoldable pub call : Command → (DriverError → SetupError) → Setup Unit
  call c wrap sent = (outcome wrap (m.answer sent c), c ∷ sent)

  abbrev pub listing : Result DriverError (List String) → Result SetupError (List String)
  listing (ok ns) = ok ns
  listing (err e) = err (wrapped "list collections: " e)

  -- `s.db.ListCollectionNames(ctx, bson.M{"name": s.cfg.Collection})`
  unfoldable pub list_names : Store → Setup (List String)
  list_names s sent = (
    listing (m.names sent s.db s.cfg.collection),
    list_collection_names s.db s.cfg.collection ∷ sent,
  )

  -- A namespace that exists by now is taken for one that was created.
  abbrev pub tolerant : Option DriverError → Result SetupError Unit
  tolerant none = ok tt
  tolerant (some e) =
      if is_namespace_exists e then ok tt else err (wrapped "create time-series collection: " e)

  unfoldable pub create_time_series : Store → Setup Unit
  create_time_series s sent =
      let c : Command = create_collection s.db s.cfg.collection (time_series_options s.cfg) in
      (tolerant (m.answer sent c), c ∷ sent)

  unfoldable pub create_plain : Store → Setup Unit
  create_plain s = call (create_collection s.db s.cfg.collection plain_options) (wrapped "")

  unfoldable pub create_missing : Store → Setup Unit
  create_missing s = if s.cfg.time_series then create_time_series s else create_plain s

  unfoldable pub ensure_collections : Store → Setup Unit
  ensure_collections s = do
    names ← list_names s
    if ltb 0 (length names) then pure tt else create_missing s

  -- An error of `CreateMany` is logged and not returned.
  unfoldable pub ensure_indexes : Store → Setup Unit
  ensure_indexes s sent = (ok tt, create_many s.db s.logs index_models ∷ sent)

  unfoldable pub new : MongoDbConfig → Option Collectors → Setup Store
  new cfg cs = do
    call (connect (client_options cfg)) (wrapped "mongo connect: ")
    call ping (wrapped "mongo ping: ")
    ensure_collections (store_of cfg cs)
    ensure_indexes (store_of cfg cs)
    pure (store_of cfg cs)

  unfoldable pub close : Setup Unit
  close = call disconnect (wrapped "")
