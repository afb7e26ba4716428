-- ===== src/Main/Serve.antt =====
-- cmd/agent-frei/main.go: runServer, up to the listening server. A pointer to a store that is passed as
-- an interface gives a value that is not nil, also where the pointer is.
pub mod Bare
use agent_frei_igi.Prelude.{
  Bool, true, false, not, Text, bytes, is_empty, Result, ok, err, wrap, if◌then◌else◌,
}
use agent_frei_igi.Config.{Config, parse_token_key}
use agent_frei_igi.Crypto.{encrypt}
use agent_frei_igi.Store.Open.{new}
use agent_frei_igi.Queue.{Enqueuer}
use agent_frei_igi.Http.Webhooks.{Endpoint}
use agent_frei_igi.Http.Oauth.{OauthConfig}
use agent_frei_igi.Http.Server.{Server}
use agent_frei_igi.Main.{Outside}

-- `var store *postgres.Store`, and what is assigned to it.
pub data Pointer : Type 0 where
  nil_pointer : Pointer
  store : Pointer

-- A value of an interface type: nil, or a pointer with its type.
pub data Interface : Type 0 where
  nil : Interface
  holding : Pointer → Interface

-- s.store == nil
abbrev pub is_nil : Interface → Bool
is_nil nil = true
is_nil (holding p) = false

-- The database is optional.
unfoldable pub optional_store : Outside → Config → Result Pointer
optional_store x cfg =
    if is_empty cfg.database_url
    then ok nil_pointer
    else opened (wrap (bytes "Failed to initialize database store") (new x.driver cfg.database_url))
  where
    opened : Result (Unit {0}) → Result Pointer
    opened (ok u) = ok store
    opened (err e) = err e

-- NewEnqueuer and httpserver.New; `nonce` is the one that a handler draws when it encrypts.
unfoldable pub new_server : Outside → Result Text → Config → Interface → Server
new_server x nonce cfg s = record {
  endpoint = record {
    secret = cfg.webhook_secret;
    hmac_sha256 = x.hmac_sha256;
    has_store = not (is_nil s);
    unmarshal = x.unmarshal_event;
    enqueuer = record { logins = cfg.reviewer_logins; marshal = x.marshal_event };
  };
  oauth = record {
    admin_token = cfg.admin_token;
    admin_oauth_rpm = cfg.admin_oauth_rpm;
    max_reviewer_accounts = cfg.max_reviewer_accounts;
    token_key = parse_token_key cfg;
    encrypt = λ key token. sealed key token nonce;
  };
}
  where
    sealed : Text → Text → Result Text → Result Text
    sealed key token (ok n) = ok (encrypt (x.aead key) n token)
    sealed key token (err e) = err e

abbrev pub with_pointer : Outside → Result Text → Config → Result Pointer → Result Server
with_pointer x nonce cfg (ok p) = ok (new_server x nonce cfg (holding p))
with_pointer x nonce cfg (err e) = err e

-- runServer
unfoldable pub run_server : Outside → Result Text → Result Config → Result Server
run_server x nonce (err e) = err e
run_server x nonce (ok cfg) = with_pointer x nonce cfg (optional_store x cfg)
