-- ===== src/Alert/Evaluate.antt =====
-- `evaluate` of internal/alert/dispatcher.go.
use distributed_logs_aggrega.Base.{
  String, Bool, true, false, not, ◌&&◌, ◌||◌, Option, none, some, List, [], ◌∷◌, ◌==◌,
  if◌then◌else◌,
}
use distributed_logs_aggrega.Base.Int.{pos}
use distributed_logs_aggrega.Models.{AlertRule, LogEvent, level_fatal}
use distributed_logs_aggrega.Alert.Services.{Services, CompiledRule, Dispatcher}
use distributed_logs_aggrega.Alert.Fire.{fire}

-- `models.AlertRule{Name: "fatal-default", Channel: "slack"}`
abbrev pub fatal_default : AlertRule
fatal_default = record {
  id = "";
  name = "fatal-default";
  service_name = "";
  level = "";
  pattern = "";
  threshold = pos 0;
  window_secs = pos 0;
  channel = "slack";
  webhook = "";
  enabled = false;
}

module _ (sv : Services) where
  open sv use {Regexp, match_string}

  abbrev pattern_fails : Option Regexp → String → Bool
  pattern_fails none s = false
  pattern_fails (some re) s = not (match_string re s)

  -- The three `continue` tests.
  unfoldable pub skips : CompiledRule sv → LogEvent → Bool
  skips cr ev =
      not (cr.rule.service_name == "") && not (cr.rule.service_name == ev.service_name)
      || (not (cr.rule.level == "") && not (cr.rule.level == ev.level)
          || pattern_fails cr.pattern ev.message)

  unfoldable pub fire_matching : List (CompiledRule sv) → LogEvent → Dispatcher sv → Dispatcher sv
  fire_matching [] ev d = d
  fire_matching (cr ∷ crs) ev d =
      fire_matching crs ev (if skips cr ev then d else fire sv cr.rule ev d)

  abbrev pub is_empty : List (CompiledRule sv) → Bool
  is_empty [] = true
  is_empty (cr ∷ crs) = false

  -- The rules are those of the moment at which the evaluation starts.
  unfoldable pub evaluate : LogEvent → Dispatcher sv → Dispatcher sv
  evaluate ev d =
      if ev.level == level_fatal && is_empty d.rules
      then fire sv fatal_default ev d
      else fire_matching d.rules ev d
