-- ===== src/Examples/Outside.antt =====
-- What is not in the repository, at its simplest, and an environment, for the examples.
use native.Mathlib.Nat.{add_comm}
use agent_frei_igi.Prelude.{
  ◌∙◌, Text, bytes, text_eq, ok, none, some, [], ◌∷◌, ◌++◌, drop, length-append, refl, length,
  if◌then◌else◌, pos,
}
use agent_frei_igi.Crypto.{Aead}
use agent_frei_igi.Webhook.{WebhookPayload}
use agent_frei_igi.Config.{Config, Host, settings}
use agent_frei_igi.Main.{Outside}
use agent_frei_igi.Examples.Fixtures.{unmarshal, never_locked}

-- A cipher with a tag of sixteen zeros, and the empty nonce's law.
abbrev pub tag : Text
tag = 0 ∷ 0 ∷ 0 ∷ 0 ∷ 0 ∷ 0 ∷ 0 ∷ 0 ∷ 0 ∷ 0 ∷ 0 ∷ 0 ∷ 0 ∷ 0 ∷ 0 ∷ 0 ∷ []

abbrev pub toy : Aead
toy = record {
  seal = λ nonce plain. tag ++ plain;
  open_sealed = λ nonce s. some (drop 16 s);
  open-seal = λ nonce plain. refl;
  length-seal = λ nonce plain. length-append tag plain ∙ add_comm 16 (length plain);
}

abbrev no_payload : WebhookPayload
no_payload = record {
  action = [];
  pull_request = none;
  issue = none;
  comment = none;
  repository = none;
  installation = none;
}

abbrev pub outside : Outside
outside = record {
  driver = record { open_database = λ url. ok tt; ping = λ url. ok tt };
  read_file = λ path. ok [];
  run_cli = λ name bin args prompt. ok (bytes "{}");
  unmarshal_findings = unmarshal;
  unmarshal_event = λ body. ok no_payload;
  marshal_event = λ p. bytes "{}";
  marshal_context = λ ctx. ok (bytes "ctx");
  marshal_result = λ r. ok (bytes "result");
  sha256_hex = λ s. s;
  hmac_sha256 = λ key body. 171 ∷ [];
  aead = λ key. toy;
  ids = λ n. n ∷ [];
  job_name = λ n. n ∷ [];
  locked = never_locked;
}

-- A key of 32 bytes.
abbrev pub key : Text
key = bytes "0123456789abcdef0123456789abcdef"

-- Only the database and the key are set.
abbrev pub environment : Text → Text
environment name =
    if text_eq name (bytes "DATABASE_URL")
    then bytes "postgres://db"
    else if text_eq name (bytes "TOKEN_ENCRYPTION_KEY")
    then bytes "MDEyMzQ1Njc4OWFiY2RlZjAxMjM0NTY3ODlhYmNkZWY="
    else []

abbrev pub host_of : (Text → Text) → Host
host_of env = record {
  getenv = env;
  hostname = ok (bytes "host");
  pid = 7;
  parse_float = λ s. none;
  default_confidence = 5;
}

abbrev pub host : Host
host = host_of environment

abbrev pub bare_host : Host
bare_host = host_of (λ name. [])

-- The settings where no duration and no number is set.
abbrev pub settings_of : Host → Config
settings_of h =
    settings h (pos 1) (pos 900000000000) (pos 30000000000) (pos 2000000000) (pos 60000000000)
      (pos 120000000000)
