-- ===== src/GithubApp/Jwt.antt =====
-- internal/githubapp/jwt.go: GenerateAppJWT, over the PEM and X.509 parsers, SHA-256 and RSA. json.Marshal
-- writes the keys of a map in order; what it makes of the App's id is an argument.
pub mod Parts
use agent_frei_igi.Prelude.{
  ℕ, ◌+◌, ◌-◌, ◌*◌, ◌/◌, Bool, Text, bytes, is_empty, decimal, Option, none, some, [], ◌∷◌, ◌++◌,
  Result, ok, err, Error, message, wrap, ltb, if◌then◌else◌,
}
use agent_frei_igi.Base64.{raw_url, encode}

-- A private key that PKCS #8 holds: of RSA, or of another kind.
pub data Pkcs8Key (K : Type 0) : Type 0 where
  rsa : K → Pkcs8Key K
  other_kind : Pkcs8Key K

pub record Signer (K : Type 0) : Type 0 where
  pub pem_decode : Text → Option Text
  pub parse_pkcs1 : Text → Result K
  pub parse_pkcs8 : Text → Result (Pkcs8Key K)
  pub marshal_text : Text → Text
  pub sha256 : Text → Text
  pub sign : K → Text → Result Text

module _ {K : Type 0} where
  abbrev pub from_pkcs8 : Result (Pkcs8Key K) → Result K
  from_pkcs8 (err e) = err e
  from_pkcs8 (ok (rsa k)) = ok k
  from_pkcs8 (ok other_kind) = err (message (bytes "private key is not an RSA private key"))

  -- PKCS #1 is tried first.
  abbrev pub or_pkcs8 : Result K → Result (Pkcs8Key K) → Result K
  or_pkcs8 (ok k) other = ok k
  or_pkcs8 (err e) other =
      from_pkcs8 (wrap (bytes "failed to parse private key (tried PKCS1 & PKCS8)") other)

  abbrev pub key_of_block : Signer K → Option Text → Result K
  key_of_block x none = err (message (bytes "failed to parse private key PEM block"))
  key_of_block x (some block) = or_pkcs8 (x.parse_pkcs1 block) (x.parse_pkcs8 block)

-- The header, as json.Marshal writes it
abbrev pub header : Text
header = bytes "{\"alg\":\"RS256\",\"typ\":\"JWT\"}"

-- now.Unix() - 60
abbrev pub issued_at : ℕ → Text
issued_at unix = if ltb unix 60 then b'-' ∷ decimal (60 - unix) else decimal (unix - 60)

-- now.Unix() + 9*60
abbrev pub expires_at : ℕ → ℕ
expires_at unix = unix + 9 * 60

-- The claims: exp, iat and iss, where `iss` is written already.
unfoldable pub claims : ℕ → Text → Text
claims unix iss =
    bytes "{\"exp\":"
    ++ (decimal (expires_at unix)
        ++ (bytes ",\"iat\":" ++ (issued_at unix ++ (bytes ",\"iss\":" ++ (iss ++ bytes "}")))))

-- What is signed.
unfoldable pub payload : ℕ → Text → Text
payload unix iss = encode raw_url header ++ (b'.' ∷ encode raw_url (claims unix iss))

abbrev pub with_signature : Text → Result Text → Result Text
with_signature text (err e) = err e
with_signature text (ok sig) = ok (text ++ (b'.' ∷ encode raw_url sig))

module _ {K : Type 0} (x : Signer K) where
  abbrev pub signed : Text → Result K → Result Text
  signed text (err e) = err e
  signed text (ok k) =
      with_signature text (wrap (bytes "failed to sign JWT") (x.sign k (x.sha256 text)))

  -- GenerateAppJWT, at a time in microseconds
  unfoldable pub generate_app_jwt : ℕ → Text → Text → Result Text
  generate_app_jwt now app_id pem =
      if is_empty app_id
      then err (message (bytes "app ID cannot be empty"))
      else signed (payload (now / 1000000) (x.marshal_text app_id))
          (key_of_block x (x.pem_decode pem))
