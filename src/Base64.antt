-- ===== src/Base64.antt =====
-- encoding/base64, as internal/crypto/key.go (StdEncoding) and internal/githubapp/jwt.go
-- (RawURLEncoding) call it. Bytes are numbers below 256.
pub mod RoundTrip
use agent_frei_igi.Prelude.{
  ℕ, ◌+◌, ◌-◌, ◌*◌, ◌/◌, ◌%◌, Bool, true, false, ◌&&◌, ◌||◌, Text, bytes, is_empty, Option, none,
  some, [], ◌∷◌, ltb, leb, ◌==◌, if◌then◌else◌,
}

-- The two alphabets differ in their last two letters; the one for URLs takes no padding.
pub data Alphabet : Type 0 where
  std raw_url : Alphabet

abbrev pub letter_62 : Alphabet → ℕ
letter_62 std = b'+'
letter_62 raw_url = b'-'

abbrev pub letter_63 : Alphabet → ℕ
letter_63 std = b'/'
letter_63 raw_url = b'_'

-- The letter of six bits.
unfoldable pub letter : Alphabet → ℕ → ℕ
letter al n =
    if ltb n 26
    then n + b'A'
    else if ltb n 52
    then n - 26 + b'a'
    else if ltb n 62
    then n - 52 + b'0'
    else if n == 62
    then letter_62 al
    else letter_63 al

-- The six bits of a letter.
unfoldable pub sextet : Alphabet → ℕ → Option ℕ
sextet al c =
    if leb b'A' c && leb c b'Z'
    then some (c - b'A')
    else if leb b'a' c && leb c b'z'
    then some (c - b'a' + 26)
    else if leb b'0' c && leb c b'9'
    then some (c - b'0' + 52)
    else if c == letter_62 al
    then some 62
    else if c == letter_63 al
    then some 63
    else none

abbrev pub padding : Alphabet → Text → Text
padding std p = p
padding raw_url p = []

-- EncodeToString
unfoldable pub encode : Alphabet → Text → Text
unfolding letter
encode al [] = []
encode al (a ∷ []) = letter al (a / 4) ∷ letter al (a % 4 * 16) ∷ padding al (bytes "==")
encode al (a ∷ b ∷ []) =
    letter al (a / 4)
    ∷ letter al (a % 4 * 16 + b / 16)
    ∷ letter al (b % 16 * 4)
    ∷ padding al (bytes "=")
encode al (a ∷ b ∷ c ∷ rest) =
    letter al (a / 4)
    ∷ letter al (a % 4 * 16 + b / 16)
    ∷ letter al (b % 16 * 4 + c / 64)
    ∷ letter al (c % 64)
    ∷ encode al rest

-- One, two or three bytes of as many sextets and one more; the bits that are left over are dropped.
abbrev pub one_byte : Option ℕ → Option ℕ → Option Text
one_byte (some a) (some b) = some ((a * 4 + b / 16) ∷ [])
one_byte _ _ = none

abbrev pub two_bytes : Option ℕ → Option ℕ → Option ℕ → Option Text
two_bytes (some a) (some b) (some c) = some ((a * 4 + b / 16) ∷ (b % 16 * 16 + c / 4) ∷ [])
two_bytes _ _ _ = none

abbrev pub three_bytes : Option ℕ → Option ℕ → Option ℕ → Option ℕ → Option Text → Option Text
three_bytes (some a) (some b) (some c) (some d) (some rest) =
    some ((a * 4 + b / 16) ∷ (b % 16 * 16 + c / 4) ∷ (c % 4 * 64 + d) ∷ rest)
three_bytes _ _ _ _ _ = none

-- A group of four letters that ends in padding.
abbrev pub padded : ℕ → ℕ → ℕ → Option Text
padded a b c =
    if c == b'='
    then one_byte (sextet std a) (sextet std b)
    else two_bytes (sextet std a) (sextet std b) (sextet std c)

unfoldable pub decode_std : Text → Option Text
unfolding sextet
decode_std [] = some []
decode_std (a ∷ b ∷ c ∷ d ∷ rest) =
    let more = decode_std rest in
    if d == b'='
    then (if is_empty rest then padded a b c else none)
    else three_bytes (sextet std a) (sextet std b) (sextet std c) (sextet std d) more
decode_std _ = none

-- The decoder skips line ends.
unfoldable pub skip_line_ends : Text → Text
skip_line_ends [] = []
skip_line_ends (c ∷ s) =
    let rest = skip_line_ends s in if c == 10 || c == 13 then rest else c ∷ rest

-- base64.StdEncoding.DecodeString, which gives an error where this is `none`.
unfoldable pub decode : Text → Option Text
unfolding decode_std skip_line_ends
decode s = decode_std (skip_line_ends s)

-- base64.RawURLEncoding.DecodeString, on a text without line ends: what a reader of a token does.
unfoldable pub decode_raw_url : Text → Option Text
unfolding sextet
decode_raw_url [] = some []
decode_raw_url (a ∷ []) = none
decode_raw_url (a ∷ b ∷ []) = one_byte (sextet raw_url a) (sextet raw_url b)
decode_raw_url (a ∷ b ∷ c ∷ []) = two_bytes (sextet raw_url a) (sextet raw_url b) (sextet raw_url c)
decode_raw_url (a ∷ b ∷ c ∷ d ∷ rest) =
    three_bytes (sextet raw_url a) (sextet raw_url b) (sextet raw_url c) (sextet raw_url d)
      (decode_raw_url rest)
