-- ===== src/Models/Levels.antt =====
-- The levels of internal/models/log.go as a type.
use std.Equiv.{IsEquiv, iso_to_equiv}
use mathlib.Core.HLevel.{Σ_prop_path}
use distributed_logs_aggrega.Base.{◌≡◌, refl, true, ◌==◌, eq_iff, arith, if◌then◌else◌}
use distributed_logs_aggrega.Models.{
  LogLevel, level_debug, level_info, level_warn, level_error, level_fatal, valid,
}

pub data Severity : Type 0 where
  debug : Severity
  info : Severity
  warn : Severity
  error : Severity
  fatal : Severity

abbrev pub name : Severity → LogLevel
name debug = level_debug
name info = level_info
name warn = level_warn
name error = level_error
name fatal = level_fatal

abbrev severity : LogLevel → Severity
severity l =
    if l == level_debug
    then debug
    else if l == level_info
    then info
    else if l == level_warn
    then warn
    else if l == level_error
    then error
    else fatal

pub valid-name : (s : Severity) → valid (name s) ≡ true
unfolding valid
valid-name debug = refl
valid-name info = refl
valid-name warn = refl
valid-name error = refl
valid-name fatal = refl

severity-name : (s : Severity) → severity (name s) ≡ s
severity-name debug = refl
severity-name info = refl
severity-name warn = refl
severity-name error = refl
severity-name fatal = refl

name-severity : (l : LogLevel) → valid l ≡ true → name (severity l) ≡ l
unfolding valid
name-severity l h = ground (
  arith,
  eq_iff l level_debug,
  eq_iff l level_info,
  eq_iff l level_warn,
  eq_iff l level_error,
  eq_iff l level_fatal,
)

abbrev pub ValidLevel : Type 0
ValidLevel = (l : LogLevel) × (valid l ≡ true)

abbrev pub level_of : Severity → ValidLevel
level_of s = (name s, valid-name s)

-- Naming a level is an equivalence: `Valid` accepts the texts of the five levels and no other, and
-- different levels have different texts.
pub level_of-IsEquiv : IsEquiv level_of
level_of-IsEquiv =
    (iso_to_equiv (record {
      fun = level_of;
      inv = λ x. severity x.0;
      rinv = λ x. Σ_prop_path (λ l. hlevel) (name-severity x.0 x.1);
      linv = severity-name;
    })).1
