-- ===== src/Lib.antt =====
-- A model of agent-frei, a GitHub App that reviews pull requests with language models, and what it
-- guarantees.
--
-- The program: GitHub's webhooks enqueue jobs (internal/queue) in PostgreSQL (internal/store/postgres);
-- workers (internal/worker) claim a job under a lease and a lock generation, gather the changed files
-- (internal/detective, internal/githubapp), ask a language model (internal/critic, internal/llm), and
-- publish one review (internal/diplomat). An HTTP server (internal/httpserver) receives the webhooks and
-- takes reviewers' OAuth tokens, which are stored encrypted (internal/crypto). The command line
-- (cmd/agent-frei) starts either from the environment (internal/config), migrates the database, and
-- seeds accounts.
--
-- The files: Domain has the rows of the tables. Store.Jobs, Store.Publications, Store.Accounts and
-- Store.Installations have each SQL statement of store.go as a function of the table and the server's
-- time, under the method's name in snake case; Store.Jobs.Commands makes an interleaving of the
-- statements of all processes a list, Store.Jobs.Columns states the columns that they may change and
-- when, and the modules beside it say what holds along the list. Store.Db and Store.Publishing have
-- the methods themselves: each statement takes a round trip, before which time passes and other
-- processes run statements, and which may fail before or after the statement has run. Store.Open and
-- Store.Migrate have New and Migrate. GithubApp is the client, over the replies of the API, and
-- GithubApp.Jwt the token of the App; World puts database and client together with the worker's
-- context. Detective, Critic, Llm and Diplomat are the stages, Worker runs them for a job,
-- Worker.Overlap lets attempts to publish overlap, and Worker.Loop polls for jobs. Queue decides on
-- events, and Queue.Served is about a job's way from its event to a worker. Webhook checks signatures,
-- Http has the handlers and routes, Crypto the ciphertexts, Base64 both encodings. Config is
-- internal/config, and Main, with a module for each command, is cmd/agent-frei. Examples applies the
-- theorems to concrete inputs.
--
-- The conventions: a Go string is the list of its bytes; ToLower, TrimSpace and (?i) act on ASCII. A
-- time is microseconds, a duration of the settings nanoseconds, and a UUID or a serial id a number. A
-- float64 is its rank among the float64 values; a fraction of a duration is computed exactly. A statement
-- is atomic; of rows that are equally old, ClaimJob takes the first. The text of an error leaves out the
-- ids and inputs that Go quotes in it, a reply's body and a command's stderr. JSON, SHA-256, HMAC,
-- AES-GCM, X.509, RSA, random values, what an SQL script does and what a provider answers are arguments.
-- Signals to a worker (heartbeats that fall due, a shutdown) take effect where it looks at its context;
-- that the context is done can make any statement fail. Only Prelude.Decimal uses fuel, one more than the
-- number, which has fewer digits; all other loops are structural, over the replies of the API where they
-- page, and over the events that arrive where a worker polls.
--
-- Not modelled: the goroutines that start workers and listeners, two processes that migrate at once,
-- starting a provider's command and killing its process group, the pages and bodies of the server's
-- replies, log lines and usage texts, the SQL of the migrations, and the rules record of
-- internal/domain/rule.go, which nothing reads.
mod Prelude
mod Examples
pub mod Domain
pub mod Store
pub mod World
pub mod Detective
pub mod Crypto
pub mod GithubApp
pub mod Llm
pub mod Critic
pub mod Diplomat
pub mod Worker
pub mod Webhook
pub mod Queue
pub mod Http
pub mod Config
pub mod Main
pub mod Base64
