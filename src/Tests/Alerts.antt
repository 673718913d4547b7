-- ===== src/Tests/Alerts.antt =====
-- Alerts, over services of a small kind.
use distributed_logs_aggrega.Base.{
  ◌≡◌, refl, ◌⊎◌, inl, inr, Bool, true, false, String, Option, none, some, List, [], ◌∷◌, map, ◌==◌,
  if◌then◌else◌,
}
use distributed_logs_aggrega.Base.Int.{pos}
use distributed_logs_aggrega.Metrics
use distributed_logs_aggrega.Models.{AlertRule}
use distributed_logs_aggrega.Alert.Services.{
  Services, CompiledRule, Dispatcher, status, Sent, Failure, breaker_refused, Call,
}
use distributed_logs_aggrega.Alert.Evaluate.{fatal_default, evaluate}
use distributed_logs_aggrega.Alert.Delivery.{Counts, due, evaluate-Counts}
use distributed_logs_aggrega.Alert.Chosen.{Fires, evaluate-Fires}
use distributed_logs_aggrega.Alert.Unread.{rebudget, evaluate-rebudget}
use distributed_logs_aggrega.Tests.Data.{out_of_memory}

-- A breaker is closed (`true`) or refuses.
abbrev guarded : Bool → Call → Sent → Bool × Option Failure × Sent
guarded true f w = (true, (f w).0, (f w).1)
guarded false f w = (false, some (breaker_refused "open"), w)

pub guarded-executes :
    (b : Bool) (f : Call) (w : Sent)
    → ((guarded b f w).1 ≡ (f w).0) × ((guarded b f w).2 ≡ (f w).1)
      ⊎ ((e : String) × ((guarded b f w).1 ≡ some (breaker_refused e)) × ((guarded b f w).2 ≡ w))
guarded-executes true f w = inl (refl, refl)
guarded-executes false f w = inr ("open", refl, refl)

-- A pattern matches its own text, and "(" is none.
abbrev pub local : Services
local = record {
  Regexp = String;
  compile = λ s. if s == "(" then none else some s;
  match_string = λ re s. re == s;
  marshal_text = λ s. s;
  bad_url = λ u. if u == "" then some "no host" else none;
  answer = λ w r. status 200;
  Breaker = Bool;
  execute = guarded;
  executes = guarded-executes;
}

abbrev rule_for : String → String → AlertRule
rule_for service pattern = record fatal_default { service_name = service; pattern = pattern }

abbrev pub for_orders : CompiledRule local
for_orders = record { rule = rule_for "orders" ""; pattern = none }

abbrev for_users : CompiledRule local
for_users = record { rule = rule_for "users" ""; pattern = none }

abbrev pub dispatcher : Bool → List (CompiledRule local) → Dispatcher local
dispatcher enabled rules = record {
  cfg = record { enabled = enabled; slack_webhook = "https://hooks"; pager_duty_key = "" };
  collectors = some Metrics.new;
  breaker = true;
  rules = rules;
  rules_at = pos 0;
  sent = [];
}

evaluate-Counts_example :
    Counts local
      (dispatcher true (for_orders ∷ []))
      (evaluate local out_of_memory (dispatcher true (for_orders ∷ [])))
      (due local out_of_memory (dispatcher true (for_orders ∷ [])))
evaluate-Counts_example =
    evaluate-Counts local out_of_memory (dispatcher true (for_orders ∷ [])) refl

-- No rule applies, so the FATAL event fires nothing.
evaluate-Fires_example :
    Fires local
      (for_users ∷ [])
      out_of_memory
      (dispatcher true (for_users ∷ []))
      (evaluate local out_of_memory (dispatcher true (for_users ∷ [])))
evaluate-Fires_example = evaluate-Fires local out_of_memory (dispatcher true (for_users ∷ []))

evaluate-rebudget_example :
    evaluate local out_of_memory
      (dispatcher true (map (rebudget local (pos 5) (pos 60) "pagerduty") (for_orders ∷ [])))
    ≡ record (evaluate local out_of_memory (dispatcher true (for_orders ∷ []))) {
      rules = map (rebudget local (pos 5) (pos 60) "pagerduty") (for_orders ∷ []);
    }
evaluate-rebudget_example =
    evaluate-rebudget local (pos 5) (pos 60) "pagerduty" out_of_memory
      (dispatcher true (for_orders ∷ []))
