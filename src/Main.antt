-- ===== src/Main.antt =====
-- cmd/agent-frei/main.go: the choice of a command, and what the commands take from outside.
pub mod Worker
pub mod Seed
pub mod Serve
pub mod Migrations
use agent_frei_igi.Prelude.{
  ℕ, Bool, Text, bytes, text_eq, is_empty, Option, none, some, List, [], ◌∷◌, ◌++◌, Result, ok, err,
  Error, message, wrap, if◌then◌else◌,
}
use agent_frei_igi.Domain.{ReviewJob, ReviewContext}
use agent_frei_igi.Crypto.{Aead}
use agent_frei_igi.Critic.{LlmResult, ReviewResult}
use agent_frei_igi.Webhook.{WebhookPayload}
use agent_frei_igi.Config.{Config}
use agent_frei_igi.Store.Open.{Driver, new}

-- What the process does with its arguments; the program's name is not among them.
pub data Command : Type 0 where
  version serve migrate worker : Command
  seed_account : List Text → Command
  -- Usage is printed, and the exit code is 1.
  no_command : Command
  unknown_command : Text → Command

-- main
unfoldable pub command_of : List Text → Command
command_of [] = no_command
command_of (command ∷ args) =
    if text_eq command (bytes "version")
    then version
    else if text_eq command (bytes "serve")
    then serve
    else if text_eq command (bytes "migrate")
    then migrate
    else if text_eq command (bytes "worker")
    then worker
    else if text_eq command (bytes "seed-account")
    then seed_account args
    else unknown_command command

-- What main prints for `version`.
abbrev pub version_line : Text
version_line = bytes "agent-frei version 0.1.0-dev\n"

-- What is not in the repository: the driver, a file's content, what a provider's command answers to a
-- prompt, the JSON codecs, the hashes, AES-256-GCM under a key, UUIDs, and the rows that
-- ClaimJob finds locked.
pub record Outside : Type 0 where
  pub driver : Driver
  pub read_file : Text → Result Text
  pub run_cli : Text → Text → List Text → Text → Result Text
  pub unmarshal_findings : Text → Result LlmResult
  pub unmarshal_event : Text → Result WebhookPayload
  pub marshal_event : WebhookPayload → Text
  pub marshal_context : ReviewContext → Result Text
  pub marshal_result : ReviewResult → Result Text
  pub sha256_hex : Text → Text
  pub hmac_sha256 : Text → Text → Text
  pub aead : Text → Aead
  pub ids : ℕ → Text
  pub job_name : ℕ → Text
  pub locked : ReviewJob → Bool

-- The store of a command that cannot go on without one.
unfoldable pub required_store : Outside → Config → Result (Unit {0})
required_store x cfg =
    if is_empty cfg.database_url
    then err (message (bytes "DATABASE_URL environment variable is not set"))
    else wrap (bytes "Failed to initialize database store") (new x.driver cfg.database_url)
