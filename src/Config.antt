-- ===== src/Config.antt =====
-- internal/config/config.go: the configuration, its defaults, and the loader. A Go int is an
-- integer, a duration its nanoseconds.
pub mod Atoi
pub mod Load
pub mod Precedence
pub mod Port
use distributed_logs_aggrega.Base.{ℕ, String, Bool, true, false, List, [], ◌∷◌, ◌*◌}
use distributed_logs_aggrega.Base.Int.{ℤ, pos}

pub record ServerConfig : Type 0 where
  pub host : String
  pub port : ℤ
  pub metrics_port : ℤ
  pub read_timeout : ℤ
  pub write_timeout : ℤ
  pub shutdown_timeout : ℤ

pub record MongoDbConfig : Type 0 where
  pub uri : String
  pub database : String
  pub collection : String
  pub rules_collection : String
  pub connect_timeout : ℤ
  pub max_pool_size : ℕ
  pub min_pool_size : ℕ
  pub ttl_days : ℤ
  pub time_series : Bool
  pub granularity_seconds : Bool

pub record KafkaConfig : Type 0 where
  pub enabled : Bool
  pub brokers : List String
  pub topic : String
  pub group_id : String

pub record RedisConfig : Type 0 where
  pub enabled : Bool
  pub addr : String
  pub password : String
  pub db : ℤ
  pub ttl_secs : ℤ

pub record IngestorConfig : Type 0 where
  pub workers : ℤ
  pub buffer_size : ℤ
  pub batch_size : ℤ
  pub flush_millis : ℤ

pub record AlerterConfig : Type 0 where
  pub enabled : Bool
  pub slack_webhook : String
  pub pager_duty_key : String

pub record LogConfig : Type 0 where
  pub level : String
  pub format : String

pub record Config : Type 0 where
  pub server : ServerConfig
  pub mongo_db : MongoDbConfig
  pub kafka : KafkaConfig
  pub redis : RedisConfig
  pub ingestor : IngestorConfig
  pub alerter : AlerterConfig
  pub log : LogConfig

abbrev pub second : ℕ
second = 1_000_000_000

abbrev pub default : Config
default = record {
  server = record {
    host = "0.0.0.0";
    port = pos 8080;
    metrics_port = pos 9090;
    read_timeout = pos (15 * second);
    write_timeout = pos (15 * second);
    shutdown_timeout = pos (30 * second);
  };
  mongo_db = record {
    uri = "mongodb://localhost:27017";
    database = "logstream";
    collection = "logs";
    rules_collection = "alert_rules";
    connect_timeout = pos (10 * second);
    max_pool_size = 200;
    min_pool_size = 10;
    ttl_days = pos 14;
    time_series = true;
    granularity_seconds = false;
  };
  kafka = record {
    enabled = false;
    brokers = "localhost:9092" ∷ [];
    topic = "logs";
    group_id = "logstream-ingestor";
  };
  redis = record {
    enabled = false;
    addr = "localhost:6379";
    password = "";
    db = pos 0;
    ttl_secs = pos 300;
  };
  ingestor = record {
    workers = pos 16;
    buffer_size = pos 20000;
    batch_size = pos 100;
    flush_millis = pos 250;
  };
  alerter = record { enabled = false; slack_webhook = ""; pager_duty_key = "" };
  log = record { level = "info"; format = "json" };
}
