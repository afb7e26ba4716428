-- ===== src/Base64/RoundTrip.antt =====
-- encoding/base64: what was encoded decodes to itself.
use agent_frei_igi.Prelude.{
  ℕ, ◌+◌, ◌*◌, ◌/◌, ◌%◌, ◌<◌, ◌≡◌, refl, true, false, Text, some, [], ◌∷◌, All, arith, ◌||◌, lacks,
  ◌==◌,
}
use agent_frei_igi.Base64.{
  Alphabet, std, raw_url, letter, sextet, encode, one_byte, two_bytes, three_bytes, decode_std,
  skip_line_ends, decode, decode_raw_url,
}

abbrev pub AreBytes : Text → Type 0
AreBytes = All (λ b. b < 256)

sextet-letter : (al : Alphabet) (n : ℕ) → n < 64 → sextet al (letter al n) ≡ some n
unfolding sextet letter
sextet-letter std n h = ground arith
sextet-letter raw_url n h = ground arith

letter-pad : (n : ℕ) → n < 64 → (letter std n == b'=') ≡ false
unfolding letter
letter-pad n h = ground arith

-- The bytes come back from their sextets.
first_byte : (a b : ℕ) → b < 256 → a / 4 * 4 + (a % 4 * 16 + b / 16) / 16 ≡ a
first_byte a b h = omega arith

second_byte :
    (a b c : ℕ)
    → b < 256
    → c < 256
    → (a % 4 * 16 + b / 16) % 16 * 16 + (b % 16 * 4 + c / 64) / 4 ≡ b
second_byte a b c hb hc = omega arith

third_byte : (b c : ℕ) → c < 256 → (b % 16 * 4 + c / 64) % 4 * 64 + c % 64 ≡ c
third_byte b c h = omega arith

module _ (al : Alphabet) (a b : ℕ) (ha : a < 256) where
  one-byte :
      one_byte (sextet al (letter al (a / 4))) (sextet al (letter al (a % 4 * 16))) ≡ some (a ∷ [])
  one-byte =
      let e : a / 4 * 4 + a % 4 * 16 / 16 ≡ a = omega arith in
      rw (sextet-letter al (a / 4) (omega arith), sextet-letter al (a % 4 * 16) (omega arith), e)
        refl

  module _ (hb : b < 256) where
    two-bytes :
        two_bytes
          (sextet al (letter al (a / 4)))
          (sextet al (letter al (a % 4 * 16 + b / 16)))
          (sextet al (letter al (b % 16 * 4)))
        ≡ some (a ∷ b ∷ [])
    two-bytes =
        let e : (a % 4 * 16 + b / 16) % 16 * 16 + b % 16 * 4 / 4 ≡ b = omega arith in
        rw
          (
            sextet-letter al (a / 4) (omega arith),
            sextet-letter al (a % 4 * 16 + b / 16) (omega arith),
            sextet-letter al (b % 16 * 4) (omega arith),
            first_byte a b hb,
            e,
          )
          refl

    three-bytes :
        (c : ℕ) (rest : Text)
        → c < 256
        → three_bytes
            (sextet al (letter al (a / 4)))
            (sextet al (letter al (a % 4 * 16 + b / 16)))
            (sextet al (letter al (b % 16 * 4 + c / 64)))
            (sextet al (letter al (c % 64)))
            (some rest)
          ≡ some (a ∷ b ∷ c ∷ rest)
    three-bytes c rest hc =
        rw
          (
            sextet-letter al (a / 4) (omega arith),
            sextet-letter al (a % 4 * 16 + b / 16) (omega arith),
            sextet-letter al (b % 16 * 4 + c / 64) (omega arith),
            sextet-letter al (c % 64) (omega arith),
            first_byte a b hb,
            second_byte a b c hb hc,
            third_byte b c hc,
          )
          refl

-- What a reader of a token makes of one of its parts.
pub decode_raw_url-encode : (s : Text) → AreBytes s → decode_raw_url (encode raw_url s) ≡ some s
unfolding encode decode_raw_url
decode_raw_url-encode [] h = refl
decode_raw_url-encode (a ∷ []) h = one-byte raw_url a 0 h.0
decode_raw_url-encode (a ∷ b ∷ []) h = two-bytes raw_url a b h.0 h.1.0
decode_raw_url-encode (a ∷ b ∷ c ∷ rest) h =
    rw (decode_raw_url-encode rest h.1.1.1) (three-bytes raw_url a b h.0 h.1.0 c rest h.1.1.0)

decode_std-encode : (s : Text) → AreBytes s → decode_std (encode std s) ≡ some s
unfolding encode decode_std
decode_std-encode [] h = refl
decode_std-encode (a ∷ []) h = one-byte std a 0 h.0
decode_std-encode (a ∷ b ∷ []) h =
    rw (letter-pad (b % 16 * 4) (omega arith)) (two-bytes std a b h.0 h.1.0)
decode_std-encode (a ∷ b ∷ c ∷ rest) h =
    rw (letter-pad (c % 64) (omega arith), decode_std-encode rest h.1.1.1)
      (three-bytes std a b h.0 h.1.0 c rest h.1.1.0)

-- No letter is a line end or a point.
letter-visible :
    (al : Alphabet) (n : ℕ)
    → (letter al n == 10 || letter al n == 13 || letter al n == b'.') ≡ false
unfolding letter
letter-visible std n = ground arith
letter-visible raw_url n = ground arith

skip-letter :
    (al : Alphabet) (n : ℕ) (s : Text)
    → skip_line_ends (letter al n ∷ s) ≡ letter al n ∷ skip_line_ends s
unfolding skip_line_ends
skip-letter al n s = ground (arith, letter-visible al n)

skip-encode : (s : Text) → skip_line_ends (encode std s) ≡ encode std s
unfolding encode skip_line_ends
skip-encode [] = refl
skip-encode (a ∷ []) = ground (arith, letter-visible std (a / 4), letter-visible std (a % 4 * 16))
skip-encode (a ∷ b ∷ []) = ground (
  arith,
  letter-visible std (a / 4),
  letter-visible std (a % 4 * 16 + b / 16),
  letter-visible std (b % 16 * 4),
)
skip-encode (a ∷ b ∷ c ∷ rest) = ground (
  arith,
  letter-visible std (a / 4),
  letter-visible std (a % 4 * 16 + b / 16),
  letter-visible std (b % 16 * 4 + c / 64),
  letter-visible std (c % 64),
  skip-encode rest,
)

-- Bytes that were encoded with padding decode to themselves.
pub decode-encode : (s : Text) → AreBytes s → decode (encode std s) ≡ some s
unfolding decode
decode-encode s h = rw (skip-encode s) (decode_std-encode s h)

-- A part of a token has no point in it.
pub encode-lacks : (s : Text) → lacks b'.' (encode raw_url s) ≡ true
unfolding encode lacks
encode-lacks [] = refl
encode-lacks (a ∷ []) =
    ground (arith, letter-visible raw_url (a / 4), letter-visible raw_url (a % 4 * 16))
encode-lacks (a ∷ b ∷ []) = ground (
  arith,
  letter-visible raw_url (a / 4),
  letter-visible raw_url (a % 4 * 16 + b / 16),
  letter-visible raw_url (b % 16 * 4),
)
encode-lacks (a ∷ b ∷ c ∷ rest) = ground (
  arith,
  letter-visible raw_url (a / 4),
  letter-visible raw_url (a % 4 * 16 + b / 16),
  letter-visible raw_url (b % 16 * 4 + c / 64),
  letter-visible raw_url (c % 64),
  encode-lacks rest,
)
