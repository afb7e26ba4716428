-- ===== src/Config/Duration.antt =====
-- time.ParseDuration, as parseDuration (internal/config/config.go) calls it. A duration is a number of
-- nanoseconds that fits 63 bits and a sign; of a fraction, what is below a nanosecond is cut off.
mod Tests
pub mod Defaults
use agent_frei_igi.Prelude.{
  ℕ, zero, suc, ◌+◌, ◌*◌, ◌-◌, ◌/◌, ◌≡◌, refl, Bool, true, false, ◌&&◌, ◌||◌, not, Text, bytes,
  text_eq, is_empty, Option, none, some, List, [], ◌∷◌, Result, ok, err, Error, message, ℤ, pos,
  negsuc, leb, ◌==◌, if◌then◌else◌, arith, is_digit, max_int, in_range, negated,
}

-- A number, with a point perhaps, and the unit behind it.
abbrev Segment : Type 0
Segment = Text × Text

abbrev in_number : ℕ → Bool
in_number c = is_digit c || c == b'.'

abbrev cons_number : ℕ → List Segment → List Segment
cons_number c [] = (c ∷ [], []) ∷ []
cons_number c ((number, unit) ∷ rest) = (c ∷ number, unit) ∷ rest

-- A letter before a number begins a unit that ends there.
abbrev cons_unit : ℕ → List Segment → List Segment
cons_unit c [] = ([], c ∷ []) ∷ []
cons_unit c (([], unit) ∷ rest) = ([], c ∷ unit) ∷ rest
cons_unit c ((d ∷ number, unit) ∷ rest) = ([], c ∷ []) ∷ (d ∷ number, unit) ∷ rest

unfoldable pub segments : Text → List Segment
segments [] = []
segments (c ∷ s) =
    let rest = segments s in if in_number c then cons_number c rest else cons_unit c rest

-- The nanoseconds of a unit; the micro sign and the letter mu are two bytes each.
abbrev unit_size : Text → Option ℕ
unit_size u =
    if text_eq u (bytes "ns")
    then some 1
    else if text_eq u (bytes "us")
    then some 1000
    else if text_eq u (194 ∷ 181 ∷ b's' ∷ [])
    then some 1000
    else if text_eq u (206 ∷ 188 ∷ b's' ∷ [])
    then some 1000
    else if text_eq u (bytes "ms")
    then some 1000000
    else if text_eq u (bytes "s")
    then some 1000000000
    else if text_eq u (bytes "m")
    then some 60000000000
    else if text_eq u (bytes "h")
    then some 3600000000000
    else none

-- The largest magnitude that is let through before the sign is known: 1 << 63.
abbrev limit : ℕ
limit = max_int + 1

-- leadingFraction: digits past the precision are skipped.
skipped : Text → ℕ → ℕ → Option (ℕ × ℕ)
skipped [] f scale = some (f, scale)
skipped (c ∷ s) f scale = if is_digit c then skipped s f scale else none

-- leadingFraction: the digits after the point as a number, with its scale. No second point may follow.
fraction : Text → ℕ → ℕ → Option (ℕ × ℕ)
unfolding skipped
fraction [] f scale = some (f, scale)
fraction (c ∷ s) f scale =
    let g = f * 10 + (c - b'0') in
    if not (is_digit c)
    then none
    else if leb f (max_int / 10) && leb g limit
    then fraction s g (scale * 10)
    else skipped s f scale

-- The whole part, the fraction and the fraction's scale.
abbrev with_whole : ℕ → Option (ℕ × ℕ) → Option (ℕ × (ℕ × ℕ))
with_whole v none = none
with_whole v (some (f, scale)) = some (v, (f, scale))

-- leadingInt, and what a point begins; one digit is required before or after the point.
whole : Text → ℕ → Bool → Option (ℕ × (ℕ × ℕ))
unfolding fraction
whole [] v seen = if seen then some (v, (0, 1)) else none
whole (c ∷ s) v seen =
    let v' = v * 10 + (c - b'0') in
    if c == b'.'
    then (if seen || not (is_empty s) then with_whole v (fraction s 0 1) else none)
    else if leb v' limit
    then whole s v' true
    else none

abbrev at_most : ℕ → Option ℕ
at_most n = if leb n limit then some n else none

abbrev scaled : ℕ → Option (ℕ × (ℕ × ℕ)) → Option ℕ
scaled unit none = none
scaled unit (some (v, (f, scale))) =
    if leb v (limit / unit) then at_most (v * unit + f * unit / scale) else none

in_unit : Text → Option ℕ → Option ℕ
unfolding whole
in_unit number none = none
in_unit number (some unit) = scaled unit (whole number 0 false)

abbrev added : ℕ → Option ℕ → Option ℕ
added d none = none
added d (some v) = at_most (d + v)

-- The loop over the segments; once one of them is refused, so is the whole.
total : List Segment → Option ℕ → Option ℕ
unfolding in_unit
total [] d = d
total ((number, unit) ∷ rest) none = none
total ((number, unit) ∷ rest) (some d) = total rest (added d (in_unit number (unit_size unit)))

abbrev invalid_duration : Error
invalid_duration = message (bytes "invalid duration")

abbrev forward : Option ℕ → Result ℤ
forward none = err invalid_duration
forward (some d) = if leb d max_int then ok (pos d) else err invalid_duration

abbrev backward : Option ℕ → Result ℤ
backward none = err invalid_duration
backward (some d) = if leb d limit then ok (negated d) else err invalid_duration

-- What follows the sign.
unfoldable pub magnitude : Text → Option ℕ
unfolding segments total
magnitude s =
    if text_eq s (bytes "0")
    then some 0
    else if is_empty s
    then none
    else total (segments s) (some 0)

-- time.ParseDuration
unfoldable pub parse_duration : Text → Result ℤ
unfolding magnitude
parse_duration [] = err invalid_duration
parse_duration (c ∷ s) =
    if c == b'-'
    then backward (magnitude s)
    else if c == b'+'
    then forward (magnitude s)
    else forward (magnitude (c ∷ s))

forward-in_range : (m : Option ℕ) {z : ℤ} → forward m ≡ ok z → in_range z ≡ true
forward-in_range none h = cc
forward-in_range (some n) h = ground arith

backward-in_range : (m : Option ℕ) {z : ℤ} → backward m ≡ ok z → in_range z ≡ true
backward-in_range none h = cc
backward-in_range (some zero) h = ground arith
backward-in_range (some (suc n)) h = ground arith

pub parse_duration-in_range : (s : Text) {z : ℤ} → parse_duration s ≡ ok z → in_range z ≡ true
unfolding parse_duration
parse_duration-in_range [] h = cc
parse_duration-in_range (c ∷ s) {z} h = ground (
  arith,
  backward-in_range (magnitude s) {z = z},
  forward-in_range (magnitude s) {z = z},
  forward-in_range (magnitude (c ∷ s)) {z = z},
)
