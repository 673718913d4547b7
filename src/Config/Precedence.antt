-- ===== src/Config/Precedence.antt =====
-- Which value of a setting wins in internal/config/config.go.
use distributed_logs_aggrega.Base.{
  String, ap, sym, ◌∙◌, ◌≡◌, refl, ◌⊎◌, Bool, ◌||◌, not, Option, none, some, [], ◌∷◌, ◌==◌, eq_iff,
  if◌then◌else◌, arith, Option-cases, Bool-cases, inl, inr,
}
use distributed_logs_aggrega.Base.Int.{ℤ}
use distributed_logs_aggrega.Config.{Config, IngestorConfig, default}
use distributed_logs_aggrega.Config.Atoi.{atoi}
use distributed_logs_aggrega.Config.Load.{
  Env, override_uri, override_database, override_redis, override_kafka, override_slack,
  override_port, override_level, apply_env_overrides, FileRead, contents, not_exist, fails,
  LoadResult, loaded, parse_error, read_error, Unmarshalled, decoded, malformed, finish, read, load,
}

abbrev pub or_default : String → String → String
or_default v d = if v == "" then d else v

abbrev pub is_set : String → Bool
is_set v = not (v == "")

abbrev pub port_or : Option ℤ → ℤ → ℤ
port_or none d = d
port_or (some p) d = p

-- Every field that the environment can change, and no other.
abbrev pub overridden : Env → Config → Config
overridden env cfg = record cfg {
  server = record (cfg.server) { port = port_or (atoi (env "SERVER_PORT")) cfg.server.port };
  mongo_db = record (cfg.mongo_db) {
    uri = or_default (env "MONGODB_URI") cfg.mongo_db.uri;
    database = or_default (env "MONGODB_DATABASE") cfg.mongo_db.database;
  };
  kafka = record (cfg.kafka) {
    brokers = if is_set (env "KAFKA_BROKERS") then env "KAFKA_BROKERS" ∷ [] else cfg.kafka.brokers;
    enabled = is_set (env "KAFKA_BROKERS") || cfg.kafka.enabled;
  };
  redis = record (cfg.redis) {
    addr = or_default (env "REDIS_ADDR") cfg.redis.addr;
    enabled = is_set (env "REDIS_ADDR") || cfg.redis.enabled;
  };
  alerter = record (cfg.alerter) {
    slack_webhook = or_default (env "SLACK_WEBHOOK") cfg.alerter.slack_webhook;
    enabled = is_set (env "SLACK_WEBHOOK") || cfg.alerter.enabled;
  };
  log = record (cfg.log) { level = or_default (env "LOG_LEVEL") cfg.log.level };
}

atoi-empty : atoi "" ≡ none
unfolding atoi
atoi-empty = refl

override_uri_lem :
    (v : String) (cfg : Config)
    → override_uri v cfg
      ≡ record cfg { mongo_db = record (cfg.mongo_db) { uri = or_default v cfg.mongo_db.uri } }
unfolding override_uri
override_uri_lem v cfg = ground arith

override_database_lem :
    (v : String) (cfg : Config)
    → override_database v cfg ≡ record cfg {
      mongo_db = record (cfg.mongo_db) { database = or_default v cfg.mongo_db.database };
    }
unfolding override_database
override_database_lem v cfg = ground arith

override_redis_lem :
    (v : String) (cfg : Config)
    → override_redis v cfg ≡ record cfg {
      redis = record (cfg.redis) {
        addr = or_default v cfg.redis.addr;
        enabled = is_set v || cfg.redis.enabled;
      };
    }
unfolding override_redis
override_redis_lem v cfg = ground arith

override_kafka_lem :
    (v : String) (cfg : Config)
    → override_kafka v cfg ≡ record cfg {
      kafka = record (cfg.kafka) {
        brokers = if is_set v then v ∷ [] else cfg.kafka.brokers;
        enabled = is_set v || cfg.kafka.enabled;
      };
    }
unfolding override_kafka
override_kafka_lem v cfg = ground arith

override_slack_lem :
    (v : String) (cfg : Config)
    → override_slack v cfg ≡ record cfg {
      alerter = record (cfg.alerter) {
        slack_webhook = or_default v cfg.alerter.slack_webhook;
        enabled = is_set v || cfg.alerter.enabled;
      };
    }
unfolding override_slack
override_slack_lem v cfg = ground arith

override_port_lem :
    (v : String) (cfg : Config)
    → override_port v cfg
      ≡ record cfg { server = record (cfg.server) { port = port_or (atoi v) cfg.server.port } }
unfolding override_port
override_port_lem v cfg = ground (arith, atoi-empty, eq_iff v "", Option-cases (atoi v))

override_level_lem :
    (v : String) (cfg : Config)
    → override_level v cfg
      ≡ record cfg { log = record (cfg.log) { level = or_default v cfg.log.level } }
unfolding override_level
override_level_lem v cfg = ground arith

-- The seven statements amount to one table: a variable that is set replaces its field, and nothing
-- else changes.
pub apply_env_overrides_lem :
    (env : Env) (cfg : Config) → apply_env_overrides env cfg ≡ overridden env cfg
unfolding apply_env_overrides
apply_env_overrides_lem env cfg = simp (
  override_uri_lem, override_database_lem, override_redis_lem, override_kafka_lem,
  override_slack_lem, override_port_lem, override_level_lem,
)

abbrev pub map_loaded : (Config → Config) → LoadResult → LoadResult
map_loaded f (loaded cfg) = loaded (f cfg)
map_loaded f (parse_error e) = parse_error e
map_loaded f (read_error e) = read_error e

abbrev pub empty_env : Env
empty_env name = ""

overridden-empty_env : (cfg : Config) → overridden empty_env cfg ≡ cfg
overridden-empty_env cfg = simp atoi-empty

apply_env_overrides-empty_env :
    (env : Env) (cfg : Config)
    → apply_env_overrides env cfg ≡ overridden env (apply_env_overrides empty_env cfg)
apply_env_overrides-empty_env env cfg =
    apply_env_overrides_lem env cfg
    ∙ sym (ap (overridden env) (apply_env_overrides_lem empty_env cfg ∙ overridden-empty_env cfg))

module _ (unmarshal : String → Config → Unmarshalled) where
  finish_env :
      (env : Env) (u : Unmarshalled)
      → finish unmarshal env u ≡ map_loaded (overridden env) (finish unmarshal empty_env u)
  unfolding finish
  finish_env env (malformed e) = refl
  finish_env env (decoded cfg) = ap loaded (apply_env_overrides-empty_env env cfg)

  read_env :
      (env : Env) (r : FileRead)
      → read unmarshal env r ≡ map_loaded (overridden env) (read unmarshal empty_env r)
  unfolding read
  read_env env (contents d) = finish_env env (unmarshal d default)
  read_env env not_exist = ap loaded (apply_env_overrides-empty_env env default)
  read_env env (fails e) = refl

abbrev ingestor_or : IngestorConfig → LoadResult → IngestorConfig
ingestor_or d (loaded cfg) = cfg.ingestor
ingestor_or d _ = d

ingestor-map_loaded :
    (env env' : Env) (r : LoadResult) {cfg cfg' : Config}
    → map_loaded (overridden env) r ≡ loaded cfg
    → map_loaded (overridden env') r ≡ loaded cfg'
    → cfg.ingestor ≡ cfg'.ingestor
ingestor-map_loaded env env' (loaded c) h h' =
    sym (ap (ingestor_or c.ingestor) h) ∙ ap (ingestor_or c.ingestor) h'
ingestor-map_loaded env env' (parse_error e) h h' = cc
ingestor-map_loaded env env' (read_error e) h h' = cc

module _ (unmarshal : String → Config → Unmarshalled) (read_file : String → FileRead) where
  -- The environment wins over the file and the defaults: loading under an environment is loading
  -- without one, errors included, and then overriding.
  pub load_env :
      (env : Env) (path : String)
      → load unmarshal env read_file path
        ≡ map_loaded (overridden env) (load unmarshal empty_env read_file path)
  unfolding load
  load_env env path = elim (Bool-cases (path == "")) [
    | inl e ↦ rw e (ap loaded (apply_env_overrides-empty_env env default))
    | inr e ↦ rw e (read_env unmarshal env (read_file path))
  ]

  -- Without a path, or without the file, the defaults are loaded, with what the environment overrides.
  pub load_missing :
      (env : Env) (path : String)
      → (path ≡ "") ⊎ (read_file path ≡ not_exist)
      → load unmarshal env read_file path ≡ loaded (overridden env default)
  unfolding load
  load_missing env path (inl e) =
      rw ((eq_iff path "").1 e) (ap loaded (apply_env_overrides_lem env default))
  load_missing env path (inr e) = elim (Bool-cases (path == "")) [
    | inl b ↦ rw b (ap loaded (apply_env_overrides_lem env default))
    | inr b ↦ rw b (rw (e, read) (ap loaded (apply_env_overrides_lem env default)))
  ]

  -- No environment changes the settings of the ingestion pipeline.
  pub load_ingestor :
      (env env' : Env) (path : String) (cfg cfg' : Config)
      → load unmarshal env read_file path ≡ loaded cfg
      → load unmarshal env' read_file path ≡ loaded cfg'
      → cfg.ingestor ≡ cfg'.ingestor
  load_ingestor env env' path cfg cfg' h h' =
      ingestor-map_loaded env env' (load unmarshal empty_env read_file path)
        (sym (load_env env path) ∙ h) (sym (load_env env' path) ∙ h')
