-- ===== src/Prelude/Atoi.antt =====
-- strconv.Atoi, on an `int` of 64 bits. The text of an error leaves out the input.
use Prim.Native.Nat.{ℕ, zero, suc, ◌+◌, ◌-◌, ◌*◌, ◌/◌, ◌%◌, ◌≤◌, ◌<◌}
use mathlib.Core.Path.{◌≡◌, ◌∙◌}
use mathlib.Core.Logic.{inl, inr}
use mathlib.Core.Bool.{Bool, true, false, ◌&&◌}
use mathlib.Core.Option.{Option, none, some}
use mathlib.Core.List.{[], ◌∷◌}
use native.Mathlib.Omega.{arith}
use agent_frei_igi.Prelude.Tests.{ltb, leb, ◌==◌, if◌then◌else◌, Bool-cases}
use agent_frei_igi.Prelude.Int.{ℤ, pos, negsuc}
use agent_frei_igi.Prelude.Strings.{Text, bytes, is_empty}
use agent_frei_igi.Prelude.Results.{Result, ok, err, Error, message}
use agent_frei_igi.Prelude.Decimal.{digits, decimal}

abbrev pub is_digit : ℕ → Bool
is_digit c = leb b'0' c && leb c b'9'

-- The number whose digits these are, behind those that were read.
unfoldable pub read_digits : ℕ → Text → Option ℕ
read_digits n [] = some n
read_digits n (c ∷ s) = if is_digit c then read_digits (n * 10 + (c - b'0')) s else none

abbrev pub max_int : ℕ
max_int = 9223372036854775807

abbrev pub invalid_syntax : Error
invalid_syntax = message (bytes "invalid syntax")

abbrev pub out_of_range : Error
out_of_range = message (bytes "value out of range")

abbrev pub negated : ℕ → ℤ
negated zero = pos 0
negated (suc n) = negsuc n

abbrev plain : Option ℕ → Result ℤ
plain none = err invalid_syntax
plain (some n) = if leb n max_int then ok (pos n) else err out_of_range

abbrev minus : Option ℕ → Result ℤ
minus none = err invalid_syntax
minus (some n) = if leb n (max_int + 1) then ok (negated n) else err out_of_range

abbrev magnitude : Text → Option ℕ
magnitude s = if is_empty s then none else read_digits 0 s

-- strconv.Atoi
unfoldable pub atoi : Text → Result ℤ
unfolding read_digits
atoi [] = err invalid_syntax
atoi (c ∷ s) =
    if c == b'-'
    then minus (magnitude s)
    else if c == b'+'
    then plain (magnitude s)
    else plain (magnitude (c ∷ s))

abbrev starts_with_digit : Text → Bool
starts_with_digit [] = false
starts_with_digit (c ∷ s) = is_digit c

-- The digits of a number read as that number, before whatever follows them.
read-digits :
    (fuel n : ℕ) (acc : Text) → n < fuel → read_digits 0 (digits fuel n acc) ≡ read_digits n acc
unfolding read_digits digits
read-digits zero n acc h = absurd (omega arith)
read-digits (suc fuel) n acc h = elim (Bool-cases (ltb n 10)) [
  | inl one ↦ ground arith
  | inr more ↦
      let ih = read-digits fuel (n / 10) ((48 + n % 10) ∷ acc) (ground arith) in ground arith
]

digits-digit : (fuel n : ℕ) (acc : Text) → n < fuel → starts_with_digit (digits fuel n acc) ≡ true
unfolding digits
digits-digit zero n acc h = absurd (omega arith)
digits-digit (suc fuel) n acc h = elim (Bool-cases (ltb n 10)) [
  | inl one ↦ ground arith
  | inr more ↦
      let ih = digits-digit fuel (n / 10) ((48 + n % 10) ∷ acc) (ground arith) in ground arith
]

magnitude-decimal : (n : ℕ) → magnitude (decimal n) ≡ some n
unfolding decimal read_digits
magnitude-decimal n =
    ground (arith, digits-digit (suc n) n [] (omega arith), read-digits (suc n) n [] (omega arith))

atoi-unsigned : (s : Text) → starts_with_digit s ≡ true → atoi s ≡ plain (magnitude s)
unfolding atoi
atoi-unsigned [] h = cc
atoi-unsigned (c ∷ s) h = ground arith

-- A number that fits the type reads back from its decimal digits.
pub atoi-decimal : (n : ℕ) → n ≤ max_int → atoi (decimal n) ≡ ok (pos n)
unfolding decimal
atoi-decimal n h =
    atoi-unsigned (decimal n) (digits-digit (suc n) n [] (omega arith))
    ∙ rw (magnitude-decimal n) (ground arith)

-- So does a negative one from its sign and digits.
pub atoi-minus : (n : ℕ) → n ≤ max_int → atoi (b'-' ∷ decimal (suc n)) ≡ ok (negsuc n)
unfolding atoi
atoi-minus n h = rw (magnitude-decimal (suc n)) (ground arith)

-- The range of an `int`.
abbrev pub in_range : ℤ → Bool
in_range (pos n) = leb n max_int
in_range (negsuc n) = leb n max_int

plain-in_range : (m : Option ℕ) {z : ℤ} → plain m ≡ ok z → in_range z ≡ true
plain-in_range none h = cc
plain-in_range (some n) h = ground arith

minus-in_range : (m : Option ℕ) {z : ℤ} → minus m ≡ ok z → in_range z ≡ true
minus-in_range none h = cc
minus-in_range (some zero) h = ground arith
minus-in_range (some (suc n)) h = ground arith

pub atoi-in_range : (s : Text) {z : ℤ} → atoi s ≡ ok z → in_range z ≡ true
unfolding atoi
atoi-in_range [] h = cc
atoi-in_range (c ∷ s) {z} h = ground (
  arith,
  minus-in_range (magnitude s) {z = z},
  plain-in_range (magnitude s) {z = z},
  plain-in_range (magnitude (c ∷ s)) {z = z},
)
