-- ===== src/Logger.antt =====
-- pkg/logger/logger.go. A logger of zap is the level and the encoder that it is built with.
use Prim.Native.Char.{code}
use distributed_logs_aggrega.Base.{
  ℕ, ◌+◌, String, Bool, true, false, ◌==◌, ◌&&◌, leb, eqb, if◌then◌else◌,
}
use distributed_logs_aggrega.Base.Action.{Result, ok}

pub data Level : Type 0 where
  debug_level info_level warn_level error_level : Level

pub data Encoder : Type 0 where
  console_encoder json_encoder : Encoder

pub record Logger : Type 0 where
  pub level : Level
  pub encoder : Encoder
  pub time_key : String
  pub adds_caller : Bool

lower : ℕ → ℕ
lower c = if leb b'A' c && leb c b'Z' then c + 32 else c

-- `strings.ToLower(s) == word`, for a word of the letters of ASCII that are no lower case of a letter
-- outside it
lowers_to : String → String → Bool
unfolding lower
lowers_to String.[] String.[] = true
lowers_to String.[] (String.◌∷◌ d word) = false
lowers_to (String.◌∷◌ c s) String.[] = false
lowers_to (String.◌∷◌ c s) (String.◌∷◌ d word) = eqb (lower (code c)) (code d) && lowers_to s word

unfoldable pub level_of : String → Level
unfolding lowers_to
level_of level =
    if lowers_to level "debug"
    then debug_level
    else if lowers_to level "warn"
    then warn_level
    else if lowers_to level "error"
    then error_level
    else info_level

unfoldable pub encoder_of : String → Encoder
encoder_of format = if format == "console" then console_encoder else json_encoder

-- No call in `New` fails: `E` is any type of errors.
unfoldable pub new : {E : Type 0} → String → String → Result E Logger
new level format = ok (record {
  level = level_of level;
  encoder = encoder_of format;
  time_key = "ts";
  adds_caller = true;
})
