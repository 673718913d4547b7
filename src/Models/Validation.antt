-- ===== src/Models/Validation.antt =====
-- What `Validate` of internal/models/log.go accepts, and what it leaves in the event.
use distributed_logs_aggrega.Base.{◌≡◌, ◌≢◌, ◌↔◌, ◌⊎◌, none, true, false, arith, eq_iff}
use distributed_logs_aggrega.Models.{
  Time, LogLevel, LogEvent, level_debug, level_info, level_warn, level_error, level_fatal, valid,
  is_zero, validate,
}

abbrev pub KnownLevel : LogLevel → Type 0
KnownLevel l =
    (l ≡ level_debug) ⊎ (l ≡ level_info) ⊎ (l ≡ level_warn) ⊎ (l ≡ level_error) ⊎ (l ≡ level_fatal)

pub valid_iff : (l : LogLevel) → (valid l ≡ true) ↔ KnownLevel l
unfolding valid
valid_iff l = ground (
  arith,
  eq_iff l level_debug,
  eq_iff l level_info,
  eq_iff l level_warn,
  eq_iff l level_error,
  eq_iff l level_fatal,
)

-- The schema, with no order among its demands.
pub record IsComplete (e : LogEvent) : Type 0 where
  pub named : e.service_name ≢ ""
  pub sourced : e.source_id ≢ ""
  pub worded : e.message ≢ ""
  pub levelled : KnownLevel e.level

module _ (now : Time) (e : LogEvent) where
  -- An event passes exactly when its service, source and message are not empty and its level is one
  -- of the five.
  pub validate-none_iff : ((validate now e).1 ≡ none) ↔ IsComplete e
  unfolding validate
  validate-none_iff = ground (
    arith,
    valid_iff e.level,
    eq_iff e.service_name "",
    eq_iff e.source_id "",
    eq_iff e.message "",
  )

  -- Validation changes no field but the timestamp.
  pub validate-fields : (validate now e).0 ≡ record e { timestamp = (validate now e).0.timestamp }
  unfolding validate
  validate-fields = ground arith

  -- An event that passes also passes a later validation, which leaves it as it is, timestamp included,
  -- if the clock did not read Go's zero time.
  pub validate_again :
      (later : Time)
      → is_zero now ≡ false
      → (validate now e).1 ≡ none
      → validate later (validate now e).0 ≡ ((validate now e).0, none)
  unfolding validate
  validate_again later h p = ground arith
