-- ===== src/Alert/Fire.antt =====
-- `fire` and `post` of internal/alert/dispatcher.go.
use distributed_logs_aggrega.Base.{◌+◌, String, Option, none, some, ◌∷◌, ◌==◌, leb, if◌then◌else◌}
use distributed_logs_aggrega.Metrics.{Collectors}
use distributed_logs_aggrega.Models.{AlertRule, LogEvent}
use distributed_logs_aggrega.Storage.Insert.{when_present}
use distributed_logs_aggrega.Alert.Payload.{slack_text}
use distributed_logs_aggrega.Alert.Services.{
  Services, Dispatcher, Request, Answer, status, no_response, Failure, invalid_request, transport,
  bad_status, Call, Sent,
}

-- `AlertsFiredTotal.Inc()`
abbrev pub count_alert : Collectors → Collectors
count_alert c = record c { alerts_fired_total = c.alerts_fired_total + 1 }

unfoldable pub failure_of : Answer → Option Failure
failure_of (no_response e) = some (transport e)
failure_of (status s) = if leb 300 s then some (bad_status s) else none

module _ (sv : Services) where
  open sv use {marshal_text, bad_url, answer, execute, Breaker}

  unfoldable pub send : Request → Call
  send req w = let a = answer w req in (failure_of a, (req, a) ∷ w)

  unfoldable pub post_valid : String → String → Option String → Call
  post_valid url payload (some e) w = (some (invalid_request e), w)
  post_valid url payload none w =
      send (record { url = url; content_type = "application/json"; body = payload }) w

  unfoldable pub post : String → String → Call
  post url payload = post_valid url payload (bad_url url)

  unfoldable pub settle : Dispatcher sv → Breaker × Option Failure × Sent → Dispatcher sv
  settle d (b, some e, w) = record d { breaker = b; sent = w }
  settle d (b, none, w) = record d {
    breaker = b;
    sent = w;
    collectors = when_present count_alert d.collectors;
  }

  unfoldable pub notify : String → String → Dispatcher sv → Dispatcher sv
  notify target payload d =
      if target == "" then d else settle d (execute d.breaker (post target payload) d.sent)

  -- A disabled alerter counts the alert and sends nothing.
  unfoldable pub fire : AlertRule → LogEvent → Dispatcher sv → Dispatcher sv
  fire rule ev d =
      if d.cfg.enabled
      then notify (if rule.webhook == "" then d.cfg.slack_webhook else rule.webhook)
          (marshal_text (slack_text rule ev)) d
      else record d { collectors = when_present count_alert d.collectors }
