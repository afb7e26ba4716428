-- ===== src/Config/Duration/Tests.antt =====
-- Durations that Go reads, and one that it refuses.
use agent_frei_igi.Prelude.{◌≡◌, refl, bytes, ok, err, pos, negsuc, text_eq}
use agent_frei_igi.Config.Duration.{
  parse_duration, magnitude, segments, total, in_unit, whole, fraction, invalid_duration,
}

quarter_hour : parse_duration (bytes "15m") ≡ ok (pos 900000000000)
unfolding parse_duration magnitude segments total in_unit whole fraction text_eq
quarter_hour = refl

mixed : parse_duration (bytes "-1h2.5s7ns") ≡ ok (negsuc 3602500000006)
unfolding parse_duration magnitude segments total in_unit whole fraction text_eq
mixed = refl

two_points : parse_duration (bytes "1.2.3s") ≡ err invalid_duration
unfolding parse_duration magnitude segments total in_unit whole fraction text_eq
two_points = refl
