-- ===== src/Alert/Payload.antt =====
-- `buildSlackPayload` of internal/alert/dispatcher.go.
use Prim.Native.Char.{Char, code}
use Prim.Native.String
use distributed_logs_aggrega.Base.{
  String, ◌==◌, eqb, if◌then◌else◌, ◌≡◌, refl, false, Bool-cases, inl, inr,
}
use distributed_logs_aggrega.Models.{AlertRule, LogEvent, level_fatal}

abbrev pub quote : Char
quote = "'"

-- strings.ReplaceAll(s, "`", "'")
unfoldable pub replace_backticks : String → String
replace_backticks String.[] = String.[]
replace_backticks (String.◌∷◌ c s) =
    String.◌∷◌ (if eqb (code c) b'`' then quote else c) (replace_backticks s)

infixr 65 ◌<>◌
abbrev ◌<>◌ : String → String → String
a <> b = String.◌++◌ a b

unfoldable pub slack_text : AlertRule → LogEvent → String
slack_text rule ev =
    (if ev.level == level_fatal then ":fire:" else ":rotating_light:")
    <> " *Alert: "
    <> rule.name
    <> "*\n*Service:* `"
    <> ev.service_name
    <> "` | *Level:* `"
    <> ev.level
    <> "`\n```"
    <> replace_backticks ev.message
    <> "```"

abbrev pub NoBacktick : String → Type 0
NoBacktick String.[] = Unit
NoBacktick (String.◌∷◌ c s) = (eqb (code c) b'`' ≡ false) × NoBacktick s

quote-code : eqb (code quote) b'`' ≡ false
quote-code = refl

-- The message as the payload has it contains no backtick, so that none can end the code block around
-- it.
pub replace_backticks-NoBacktick : (s : String) → NoBacktick (replace_backticks s)
unfolding replace_backticks
replace_backticks-NoBacktick String.[] = tt
replace_backticks-NoBacktick (String.◌∷◌ c s) = elim (Bool-cases (eqb (code c) b'`')) [
  | inl e ↦ rw e (quote-code, replace_backticks-NoBacktick s)
  | inr e ↦ rw e (e, replace_backticks-NoBacktick s)
]
