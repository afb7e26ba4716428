-- ===== src/Crypto.antt =====
-- internal/crypto: the framing of encrypted tokens. AES-256-GCM is a parameter, with the documented
-- laws of `cipher.AEAD`; the random nonce is an argument.
pub mod Keys
use agent_frei_igi.Prelude.{
  ℕ, ◌+◌, ◌≤◌, ◌<◌, ◌≡◌, ◌≢◌, refl, ◌∙◌, ap, false, Text, bytes, [], ◌∷◌, ◌++◌, length,
  length-append, take, drop, Result, ok, err, message, ltb, if◌then◌else◌, arith, Option, none,
  some, Error, subst, is_empty, ◌==◌,
}

-- cipher.AEAD under one key: Open undoes Seal, which adds a tag of 16 bytes.
pub record Aead : Type 0 where
  pub seal : Text → Text → Text
  pub open_sealed : Text → Text → Option Text
  pub open-seal : (nonce plain : Text) → open_sealed nonce (seal nonce plain) ≡ some plain
  pub length-seal : (nonce plain : Text) → length (seal nonce plain) ≡ length plain + 16

abbrev pub nonce_size : ℕ
nonce_size = 12

abbrev pub tag_size : ℕ
tag_size = 16

abbrev pub ciphertext_too_short : Error
ciphertext_too_short = message (bytes "ciphertext block is too short")

abbrev pub decryption_failed : Error
decryption_failed = message (bytes "failed to decrypt ciphertext or authentication failed")

-- Encrypt, with the nonce that was read
unfoldable pub encrypt : Aead → Text → Text → Text
encrypt a nonce plain = nonce ++ a.seal nonce plain

abbrev opened : Option Text → Result Text
opened none = err decryption_failed
opened (some plain) = ok plain

-- Decrypt
unfoldable pub decrypt : Aead → Text → Result Text
decrypt a blob =
    if ltb (length blob) (nonce_size + tag_size)
    then err ciphertext_too_short
    else opened (a.open_sealed (take nonce_size blob) (drop nonce_size blob))

take-append : (s t : Text) → take (length s) (s ++ t) ≡ s
take-append [] t = refl
take-append (c ∷ s) t = ap (λ (r : Text). c ∷ r) (take-append s t)

drop-append : (s t : Text) → drop (length s) (s ++ t) ≡ t
drop-append [] t = refl
drop-append (c ∷ s) t = drop-append s t

decrypt-long :
    (a : Aead) (nonce sealed : Text)
    → length nonce ≡ nonce_size
    → tag_size ≤ length sealed
    → decrypt a (nonce ++ sealed) ≡ opened (a.open_sealed nonce sealed)
unfolding decrypt
decrypt-long a nonce sealed n t =
    let long : ltb (length (nonce ++ sealed)) (nonce_size + tag_size) ≡ false =
      ground (arith, length-append nonce sealed) in
    let front : take nonce_size (nonce ++ sealed) ≡ nonce =
      subst (λ k. take k (nonce ++ sealed) ≡ nonce) n (take-append nonce sealed) in
    let back : drop nonce_size (nonce ++ sealed) ≡ sealed =
      subst (λ k. drop k (nonce ++ sealed) ≡ sealed) n (drop-append nonce sealed) in
    rw (long, front, back)

-- What was encrypted with a nonce of 12 bytes decrypts to itself.
pub decrypt-encrypt :
    (a : Aead) (nonce plain : Text)
    → length nonce ≡ nonce_size
    → decrypt a (encrypt a nonce plain) ≡ ok plain
unfolding encrypt
decrypt-encrypt a nonce plain n =
    decrypt-long a nonce (a.seal nonce plain) n (omega (arith, a.length-seal nonce plain))
    ∙ ap opened (a.open-seal nonce plain)

-- A blob shorter than nonce and tag is refused before it is opened.
pub decrypt-short :
    (a : Aead) (blob : Text)
    → length blob < nonce_size + tag_size
    → decrypt a blob ≡ err ciphertext_too_short
unfolding decrypt
decrypt-short a blob h = ground arith

abbrev sized : Option Text → Result Text
sized none = err (message (bytes "encryption key must be a valid base64 encoded string"))
sized (some key) =
    if length key == 32
    then ok key
    else err (message (bytes "decoded key length must be exactly 32 bytes"))

-- ParseKey, over the base64 decoder
unfoldable pub parse_key : (Text → Option Text) → Text → Result Text
parse_key decode b64 =
    if is_empty b64
    then err (message (bytes "encryption key cannot be empty"))
    else sized (decode b64)

-- A key that is accepted has 32 bytes, and is what the decoder made of a text that is not empty.
pub parse_key-size :
    (decode : Text → Option Text) (b64 : Text) {key : Text}
    → parse_key decode b64 ≡ ok key
    → (length key ≡ 32) × (decode b64 ≡ some key) × (b64 ≢ [])
unfolding parse_key
parse_key-size decode b64 h = ground arith
