-- ===== src/Alert/Matching.antt =====
-- What the tests of `evaluate` in internal/alert/dispatcher.go come to.
use distributed_logs_aggrega.Base.{◌≡◌, ◌⊎◌, true, false, String, Option, none, some, eq_iff, arith}
use distributed_logs_aggrega.Models.{LogEvent}
use distributed_logs_aggrega.Alert.Services.{Services, CompiledRule}
use distributed_logs_aggrega.Alert.Evaluate.{skips}

-- A rule's conditions on an event, each of which a rule may leave out.
module _ (sv : Services) where
  open sv use {Regexp, Breaker, match_string}

  abbrev pub PatternMatches : Option Regexp → String → Type 0
  PatternMatches none s = Unit
  PatternMatches (some re) s = match_string re s ≡ true

  pub record Applies (cr : CompiledRule sv) (ev : LogEvent) : Type 0 where
    pub service : (cr.rule.service_name ≡ "") ⊎ (cr.rule.service_name ≡ ev.service_name)
    pub level : (cr.rule.level ≡ "") ⊎ (cr.rule.level ≡ ev.level)
    pub pattern : PatternMatches cr.pattern ev.message

  pub skips-Applies :
      (cr : CompiledRule sv) (ev : LogEvent) → skips sv cr ev ≡ false → Applies cr ev
  unfolding skips
  skips-Applies cr ev h = ground (
    arith,
    eq_iff cr.rule.service_name "",
    eq_iff cr.rule.service_name ev.service_name,
    eq_iff cr.rule.level "",
    eq_iff cr.rule.level ev.level,
  )

  pub Applies-skips :
      (cr : CompiledRule sv) (ev : LogEvent) → Applies cr ev → skips sv cr ev ≡ false
  unfolding skips
  Applies-skips cr ev a = ground (
    arith,
    eq_iff cr.rule.service_name "",
    eq_iff cr.rule.service_name ev.service_name,
    eq_iff cr.rule.level "",
    eq_iff cr.rule.level ev.level,
  )
