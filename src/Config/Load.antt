-- ===== src/Config/Load.antt =====
-- `Load` and `applyEnvOverrides` of internal/config/config.go. The environment is a function from
-- names to texts, empty for a variable that is not set, as `os.Getenv` reads it. The YAML library is
-- a parameter, and so is the outcome of reading the file.
use distributed_logs_aggrega.Base.{String, true, Option, none, some, [], ◌∷◌, ◌==◌, if◌then◌else◌}
use distributed_logs_aggrega.Base.Int.{ℤ}
use distributed_logs_aggrega.Config.{Config, default}
use distributed_logs_aggrega.Config.Atoi.{atoi}

abbrev pub Env : Type 0
Env = String → String

-- The seven `if v := os.Getenv(…); v != ""` statements, in the order of the source.
unfoldable pub override_uri : String → Config → Config
override_uri v cfg =
    if v == "" then cfg else record cfg { mongo_db = record (cfg.mongo_db) { uri = v } }

unfoldable pub override_database : String → Config → Config
override_database v cfg =
    if v == "" then cfg else record cfg { mongo_db = record (cfg.mongo_db) { database = v } }

unfoldable pub override_redis : String → Config → Config
override_redis v cfg =
    if v == "" then cfg else record cfg { redis = record (cfg.redis) { addr = v; enabled = true } }

unfoldable pub override_kafka : String → Config → Config
override_kafka v cfg =
    if v == ""
    then cfg
    else record cfg { kafka = record (cfg.kafka) { brokers = v ∷ []; enabled = true } }

unfoldable pub override_slack : String → Config → Config
override_slack v cfg =
    if v == ""
    then cfg
    else record cfg { alerter = record (cfg.alerter) { slack_webhook = v; enabled = true } }

abbrev pub set_port : Option ℤ → Config → Config
set_port none cfg = cfg
set_port (some p) cfg = record cfg { server = record (cfg.server) { port = p } }

-- A port that does not parse is ignored.
unfoldable pub override_port : String → Config → Config
override_port v cfg = if v == "" then cfg else set_port (atoi v) cfg

unfoldable pub override_level : String → Config → Config
override_level v cfg = if v == "" then cfg else record cfg { log = record (cfg.log) { level = v } }

unfoldable pub apply_env_overrides : Env → Config → Config
apply_env_overrides env cfg =
    let cfg = override_uri (env "MONGODB_URI") cfg in
    let cfg = override_database (env "MONGODB_DATABASE") cfg in
    let cfg = override_redis (env "REDIS_ADDR") cfg in
    let cfg = override_kafka (env "KAFKA_BROKERS") cfg in
    let cfg = override_slack (env "SLACK_WEBHOOK") cfg in
    let cfg = override_port (env "SERVER_PORT") cfg in override_level (env "LOG_LEVEL") cfg

-- What `os.ReadFile` gives.
pub data FileRead : Type 0 where
  contents : String → FileRead
  not_exist : FileRead
  fails : String → FileRead

pub data LoadResult : Type 0 where
  loaded : Config → LoadResult
  parse_error : String → LoadResult
  read_error : String → LoadResult

-- `yaml.Unmarshal(data, cfg)`: an error, or the configuration with the file's values written over it.
pub data Unmarshalled : Type 0 where
  decoded : Config → Unmarshalled
  malformed : String → Unmarshalled

module _ (unmarshal : String → Config → Unmarshalled) where
  unfoldable pub finish : Env → Unmarshalled → LoadResult
  finish env (malformed e) = parse_error e
  finish env (decoded cfg) = loaded (apply_env_overrides env cfg)

  unfoldable pub read : Env → FileRead → LoadResult
  unfolding finish
  read env (contents d) = finish env (unmarshal d default)
  read env not_exist = loaded (apply_env_overrides env default)
  read env (fails e) = read_error e

  -- `os.ReadFile` is not called at an empty path.
  unfoldable pub load : Env → (String → FileRead) → String → LoadResult
  unfolding read
  load env read_file path =
      if path == "" then loaded (apply_env_overrides env default) else read env (read_file path)
