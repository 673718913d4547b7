-- ===== src/Alert/Rules.antt =====
-- `refreshRules` of internal/alert/dispatcher.go.
use distributed_logs_aggrega.Base.{String, Option, none, some, List, [], ◌∷◌, ◌==◌, if◌then◌else◌}
use distributed_logs_aggrega.Models.{AlertRule, Time}
use distributed_logs_aggrega.Alert.Services.{Services, CompiledRule, Dispatcher}

-- What `LoadRules` returns.
pub data LoadedRules : Type 0 where
  rules_loaded : List AlertRule → LoadedRules
  load_failed : String → LoadedRules

module _ (sv : Services) where
  open sv use {Regexp, compile}

  -- A rule whose pattern does not compile is skipped.
  unfoldable pub with_pattern :
      AlertRule → Option Regexp → List (CompiledRule sv) → List (CompiledRule sv)
  with_pattern r none rest = rest
  with_pattern r (some re) rest = record { rule = r; pattern = some re } ∷ rest

  unfoldable pub compile_rules : List AlertRule → List (CompiledRule sv)
  compile_rules [] = []
  compile_rules (r ∷ rs) =
      let rest = compile_rules rs in
      if r.pattern == ""
      then record { rule = r; pattern = none } ∷ rest
      else with_pattern r (compile r.pattern) rest

  -- A failed load keeps the rules that are there.
  unfoldable pub refresh_rules : Time → LoadedRules → Dispatcher sv → Dispatcher sv
  unfolding compile_rules
  refresh_rules now (load_failed e) d = d
  refresh_rules now (rules_loaded rs) d = record d { rules = compile_rules rs; rules_at = now }
