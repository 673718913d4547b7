-- ===== src/Models.antt =====
-- internal/models/log.go: log events and their validation, the wire formats, alert rules.
-- A `time.Time` is its distance in nanoseconds from Go's zero time, an integer. A value of `Fields`
-- (an `interface{}` that nothing reads) is kept as a text, an ObjectID as its hexadecimal text.
pub mod Validation
pub mod Levels
use distributed_logs_aggrega.Base.{
  ℕ, String, Bool, true, false, ◌||◌, Option, none, some, List, ◌==◌, if◌then◌else◌,
}
use distributed_logs_aggrega.Base.Int.{ℤ, pos, eqb_ℤ}
use distributed_logs_aggrega.Base.GoMap.{GoMap}

abbrev pub Time : Type 0
Time = ℤ

abbrev pub zero_time : Time
zero_time = pos 0

unfoldable pub is_zero : Time → Bool
is_zero t = eqb_ℤ t zero_time

abbrev pub LogLevel : Type 0
LogLevel = String

abbrev pub level_debug : LogLevel
level_debug = "DEBUG"

abbrev pub level_info : LogLevel
level_info = "INFO"

abbrev pub level_warn : LogLevel
level_warn = "WARN"

abbrev pub level_error : LogLevel
level_error = "ERROR"

abbrev pub level_fatal : LogLevel
level_fatal = "FATAL"

-- The `switch` compares with the cases from left to right.
unfoldable pub valid : LogLevel → Bool
valid l =
    l == level_debug
    || (l == level_info || (l == level_warn || (l == level_error || l == level_fatal)))

pub record LogEvent : Type 0 where
  pub id : String
  pub timestamp : Time
  pub service_name : String
  pub source_id : String
  pub level : LogLevel
  pub message : String
  pub trace_id : String
  pub span_id : String
  pub host : String
  pub environment : String
  pub tags : List String
  pub fields : GoMap String
  pub idempotency_key : String

-- `e` is a pointer: the event comes back beside the error, as the method leaves it. `now` is what
-- `time.Now().UTC()` reads.
unfoldable pub validate : Time → LogEvent → LogEvent × Option String
unfolding valid is_zero
validate now e =
    if e.service_name == ""
    then (e, some "service_name is required")
    else if e.source_id == ""
    then (e, some "source_id is required")
    else if e.message == ""
    then (e, some "message is required")
    else if valid e.level
    then (if is_zero e.timestamp then (record e { timestamp = now }, none) else (e, none))
    else (e, some "invalid level: must be DEBUG, INFO, WARN, ERROR, or FATAL")

pub record IngestRequest : Type 0 where
  pub events : List LogEvent

pub record IngestResponse : Type 0 where
  pub accepted : ℕ
  pub rejected : ℕ
  pub errors : List String

pub record QueryFilter : Type 0 where
  pub service_name : String
  pub level : LogLevel
  pub start_time : Time
  pub end_time : Time
  pub search : String
  pub limit : ℤ

pub record AlertRule : Type 0 where
  pub id : String
  pub name : String
  pub service_name : String
  pub level : LogLevel
  pub pattern : String
  pub threshold : ℤ
  pub window_secs : ℤ
  pub channel : String
  pub webhook : String
  pub enabled : Bool
