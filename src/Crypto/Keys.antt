-- ===== src/Crypto/Keys.antt =====
-- internal/crypto/key.go: ParseKey on what base64 makes of a key.
use agent_frei_igi.Prelude.{◌≡◌, refl, Text, ok, length, is_empty, false, [], ◌∷◌, arith}
use agent_frei_igi.Base64.{std, encode, decode}
use agent_frei_igi.Base64.RoundTrip.{AreBytes, decode-encode}
use agent_frei_igi.Crypto.{parse_key}

encode-present : (s : Text) → length s ≡ 32 → is_empty (encode std s) ≡ false
unfolding encode
encode-present [] h = absurd (omega (arith, h))
encode-present (a ∷ []) h = refl
encode-present (a ∷ b ∷ []) h = refl
encode-present (a ∷ b ∷ c ∷ rest) h = refl

-- A key of 32 bytes is accepted in its base64 form, and is what ParseKey returns.
pub parse_key-encode :
    (key : Text) → AreBytes key → length key ≡ 32 → parse_key decode (encode std key) ≡ ok key
unfolding parse_key
parse_key-encode key are size = rw (encode-present key size, decode-encode key are) (ground arith)
