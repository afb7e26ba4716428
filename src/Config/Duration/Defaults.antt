-- ===== src/Config/Duration/Defaults.antt =====
-- The durations that Load (internal/config/config.go) falls back to are well formed.
use agent_frei_igi.Prelude.{◌≡◌, refl, true, bytes, is_ok, text_eq}
use agent_frei_igi.Config.Duration.{
  parse_duration, magnitude, segments, total, in_unit, whole, fraction,
}

pub fifteen_minutes : is_ok (parse_duration (bytes "15m")) ≡ true
unfolding parse_duration magnitude segments total in_unit whole fraction text_eq
fifteen_minutes = refl

pub thirty_seconds : is_ok (parse_duration (bytes "30s")) ≡ true
unfolding parse_duration magnitude segments total in_unit whole fraction text_eq
thirty_seconds = refl

pub two_seconds : is_ok (parse_duration (bytes "2s")) ≡ true
unfolding parse_duration magnitude segments total in_unit whole fraction text_eq
two_seconds = refl

pub one_minute : is_ok (parse_duration (bytes "60s")) ≡ true
unfolding parse_duration magnitude segments total in_unit whole fraction text_eq
one_minute = refl

pub two_minutes : is_ok (parse_duration (bytes "120s")) ≡ true
unfolding parse_duration magnitude segments total in_unit whole fraction text_eq
two_minutes = refl
