-- ===== src/Config.antt =====
-- internal/config/config.go: the settings, as the environment of the process gives them.
pub mod Duration
pub mod Logins
pub mod Start
pub mod Flags
use agent_frei_igi.Prelude.{
  ℕ, Bool, true, false, ◌&&◌, not, Text, bytes, text_eq, is_empty, split, trim_space, decimal, atoi,
  List, [], ◌∷◌, ◌++◌, Option, none, some, Result, ok, err, Error, wrapped, ℤ, pos, if◌then◌else◌,
}
use agent_frei_igi.Config.Duration.{parse_duration}
use agent_frei_igi.Base64.{decode}
use agent_frei_igi.Crypto.{parse_key}

-- A duration is nanoseconds, a float64 its rank.
pub record Config : Type 0 where
  pub http_addr : Text
  pub database_url : Text
  pub token_encryption_key : Text
  pub webhook_secret : Text
  pub reviewer_logins : List Text
  pub worker_concurrency : ℤ
  pub worker_lease : ℤ
  pub worker_heartbeat_interval : ℤ
  pub worker_poll_interval : ℤ
  pub worker_id : Text
  pub shutdown_timeout : ℤ
  pub github_app_id : Text
  pub github_app_private_key_path : Text
  pub github_api_base_url : Text
  pub detective_max_files : ℤ
  pub detective_max_patch_bytes : ℤ
  pub llm_provider : Text
  pub llm_fallback_provider : Text
  pub llm_timeout : ℤ
  pub llm_max_output_tokens : ℤ
  pub finding_confidence_min : ℕ
  pub prompt_budget_tokens : ℤ
  pub agy_bin : Text
  pub grok_bin : Text
  pub ff_publish_comments : Bool
  pub ff_review_signature : Bool
  pub ff_request_changes : Bool
  pub ff_app_bot_publish_fallback : Bool
  pub github_oauth_client_id : Text
  pub github_oauth_client_secret : Text
  pub github_oauth_redirect_url : Text
  pub github_oauth_scopes : Text
  pub admin_token : Text
  pub max_reviewer_accounts : ℤ
  pub admin_oauth_rpm : ℤ

-- What the process has: os.Getenv, with the empty text for a variable that is not set, os.Hostname,
-- os.Getpid, and strconv.ParseFloat with the rank of 0.55.
pub record Host : Type 0 where
  pub getenv : Text → Text
  pub hostname : Result Text
  pub pid : ℕ
  pub parse_float : Text → Option ℕ
  pub default_confidence : ℕ

-- A variable, or a default where it is empty.
abbrev or_text : Text → Text → Text
or_text value fallback = if is_empty value then fallback else value

abbrev keep_login : Text → List Text → List Text
keep_login login rest = if is_empty login then rest else login ∷ rest

-- The loop over the parts of REVIEWER_LOGINS.
unfoldable pub logins_of : List Text → List Text
logins_of [] = []
logins_of (part ∷ parts) = keep_login (trim_space part) (logins_of parts)

unfoldable pub reviewer_logins : Text → List Text
unfolding logins_of
reviewer_logins s = if is_empty s then [] else logins_of (split b',' s)

abbrev or_default : ℤ → Result ℤ → ℤ
or_default d (ok n) = n
or_default d (err e) = d

-- A number that does not parse is ignored.
unfoldable pub int_or : ℤ → Text → ℤ
int_or d value = if is_empty value then d else or_default d (atoi value)

abbrev or_rank : ℕ → Option ℕ → ℕ
or_rank d none = d
or_rank d (some r) = r

abbrev fatal {ℓ} : {A : Type ℓ} → Text → Result A → Result A
fatal what (ok a) = ok a
fatal what (err e) = err (wrapped what e)

-- WORKER_CONCURRENCY; the process ends where it does not parse.
unfoldable pub concurrency_of : Text → Result ℤ
concurrency_of value =
    if is_empty value
    then ok (pos 1)
    else fatal (bytes "Invalid WORKER_CONCURRENCY configuration") (atoi value)

module _ (h : Host) where
  -- parseDuration; the process ends where the value does not parse.
  unfoldable pub duration_of : Text → Text → Result ℤ
  duration_of key fallback =
      fatal (bytes "Invalid duration configuration for " ++ key)
        (parse_duration (or_text (h.getenv key) fallback))

  abbrev host_or_unknown : Result Text → Text
  host_or_unknown (ok name) = name
  host_or_unknown (err e) = bytes "unknown-host"

  -- The worker's identity: the variable, or host and process.
  unfoldable pub worker_id_of : Text
  worker_id_of =
      or_text (h.getenv (bytes "WORKER_ID")) (host_or_unknown h.hostname ++ (b'-' ∷ decimal h.pid))

  unfoldable pub confidence_of : Text → ℕ
  confidence_of value =
      if is_empty value
      then h.default_confidence
      else or_rank h.default_confidence (h.parse_float value)

-- The variables that cannot end the process, with the values of those that can.
unfoldable pub settings : Host → ℤ → ℤ → ℤ → ℤ → ℤ → ℤ → Config
settings h concurrency lease heartbeat poll shutdown llm_timeout = record {
  http_addr = or_text (h.getenv (bytes "HTTP_ADDR")) (bytes ":8080");
  database_url = h.getenv (bytes "DATABASE_URL");
  token_encryption_key = h.getenv (bytes "TOKEN_ENCRYPTION_KEY");
  webhook_secret = h.getenv (bytes "GITHUB_WEBHOOK_SECRET");
  reviewer_logins = reviewer_logins (h.getenv (bytes "REVIEWER_LOGINS"));
  worker_concurrency = concurrency;
  worker_lease = lease;
  worker_heartbeat_interval = heartbeat;
  worker_poll_interval = poll;
  worker_id = worker_id_of h;
  shutdown_timeout = shutdown;
  github_app_id = h.getenv (bytes "GITHUB_APP_ID");
  github_app_private_key_path = h.getenv (bytes "GITHUB_APP_PRIVATE_KEY_PATH");
  github_api_base_url =
      or_text (h.getenv (bytes "GITHUB_API_BASE_URL")) (bytes "https://api.github.com");
  detective_max_files = int_or (pos 40) (h.getenv (bytes "DETECTIVE_MAX_FILES"));
  detective_max_patch_bytes = int_or (pos 409600) (h.getenv (bytes "DETECTIVE_MAX_PATCH_BYTES"));
  llm_provider = or_text (h.getenv (bytes "LLM_PROVIDER")) (bytes "agy");
  llm_fallback_provider = or_text (h.getenv (bytes "LLM_FALLBACK_PROVIDER")) (bytes "grok");
  llm_timeout = llm_timeout;
  llm_max_output_tokens = int_or (pos 8192) (h.getenv (bytes "LLM_MAX_OUTPUT_TOKENS"));
  finding_confidence_min = confidence_of h (h.getenv (bytes "FINDING_CONFIDENCE_MIN"));
  prompt_budget_tokens = int_or (pos 100000) (h.getenv (bytes "PROMPT_BUDGET_TOKENS"));
  agy_bin = or_text (h.getenv (bytes "AGY_BIN")) (bytes "agy");
  grok_bin = or_text (h.getenv (bytes "GROK_BIN")) (bytes "grok");
  ff_publish_comments = text_eq (h.getenv (bytes "FF_PUBLISH_COMMENTS")) (bytes "true");
  ff_review_signature = not (text_eq (h.getenv (bytes "FF_REVIEW_SIGNATURE")) (bytes "false"));
  ff_request_changes = text_eq (h.getenv (bytes "FF_REQUEST_CHANGES")) (bytes "true");
  ff_app_bot_publish_fallback =
      text_eq (h.getenv (bytes "FF_APP_BOT_PUBLISH_FALLBACK")) (bytes "true");
  github_oauth_client_id = h.getenv (bytes "GITHUB_OAUTH_CLIENT_ID");
  github_oauth_client_secret = h.getenv (bytes "GITHUB_OAUTH_CLIENT_SECRET");
  github_oauth_redirect_url = h.getenv (bytes "GITHUB_OAUTH_REDIRECT_URL");
  github_oauth_scopes = or_text (h.getenv (bytes "GITHUB_OAUTH_SCOPES")) (bytes "repo");
  admin_token = h.getenv (bytes "ADMIN_TOKEN");
  max_reviewer_accounts = int_or (pos 6) (h.getenv (bytes "MAX_REVIEWER_ACCOUNTS"));
  admin_oauth_rpm = int_or (pos 10) (h.getenv (bytes "ADMIN_OAUTH_RPM"));
}

-- Go's sequence of statements, of which each may end the process.
infixl 5 ◌>>=◌
abbrev ◌>>=◌ {ℓ κ} : {A : Type ℓ} {B : Type κ} → Result A → (A → Result B) → Result B
ok a >>= f = f a
err e >>= f = err e

-- Load; an error is what log.Fatalf prints before the process ends.
unfoldable pub load : Host → Result Config
load h = do
  concurrency ← concurrency_of (h.getenv (bytes "WORKER_CONCURRENCY"))
  lease ← duration_of h (bytes "WORKER_LEASE") (bytes "15m")
  heartbeat ← duration_of h (bytes "WORKER_HEARTBEAT_INTERVAL") (bytes "30s")
  poll ← duration_of h (bytes "WORKER_POLL_INTERVAL") (bytes "2s")
  shutdown ← duration_of h (bytes "SHUTDOWN_TIMEOUT") (bytes "60s")
  llm_timeout ← duration_of h (bytes "LLM_TIMEOUT") (bytes "120s")
  ok (settings h concurrency lease heartbeat poll shutdown llm_timeout)

-- ParseTokenKey
unfoldable pub parse_token_key : Config → Result Text
parse_token_key c = parse_key decode c.token_encryption_key
