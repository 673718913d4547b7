-- ===== src/Alert/Services.antt =====
-- What internal/alert/dispatcher.go calls and does not implement, and the dispatcher's state.
use distributed_logs_aggrega.Base.{ℕ, String, ◌≡◌, ◌⊎◌, Bool, Option, some, List}
use distributed_logs_aggrega.Config.{AlerterConfig}
use distributed_logs_aggrega.Metrics.{Collectors}
use distributed_logs_aggrega.Models.{AlertRule, Time}

pub record Request : Type 0 where
  pub url : String
  pub content_type : String
  pub body : String

-- How a request ends: with a status code, or with no response.
pub data Answer : Type 0 where
  status : ℕ → Answer
  no_response : String → Answer

-- The requests sent so far with their answers, the latest first.
abbrev pub Sent : Type 0
Sent = List (Request × Answer)

-- Why a notification failed: no request could be made, the transport failed, the webhook returned a
-- status from 300 on, or the breaker refused.
pub data Failure : Type 0 where
  invalid_request : String → Failure
  transport : String → Failure
  bad_status : ℕ → Failure
  breaker_refused : String → Failure

-- A call that may send requests, and its error.
abbrev pub Call : Type 0
Call = Sent → Option Failure × Sent

-- `executes` is what gobreaker documents of `Execute`: it makes the call and returns what the call
-- returns, or it refuses with an error of its own and makes no call.
pub record Services : Type 1 where
  pub Regexp : Type 0
  pub compile : String → Option Regexp
  pub match_string : Regexp → String → Bool
  pub marshal_text : String → String
  pub bad_url : String → Option String
  pub answer : Sent → Request → Answer
  pub Breaker : Type 0
  pub execute : Breaker → Call → Sent → Breaker × Option Failure × Sent
  pub executes :
      (b : Breaker) (f : Call) (w : Sent)
      → ((execute b f w).1 ≡ (f w).0) × ((execute b f w).2 ≡ (f w).1)
        ⊎ ((e : String) × ((execute b f w).1 ≡ some (breaker_refused e)) × ((execute b f w).2 ≡ w))

module _ (sv : Services) where
  open sv use {Regexp, Breaker}

  pub record CompiledRule : Type 0 where
    pub rule : AlertRule
    pub pattern : Option Regexp

  pub record Dispatcher : Type 0 where
    pub cfg : AlerterConfig
    pub collectors : Option Collectors
    pub breaker : Breaker
    pub rules : List CompiledRule
    pub rules_at : Time
    pub sent : Sent
