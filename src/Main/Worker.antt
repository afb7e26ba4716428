-- ===== src/Main/Worker.antt =====
-- cmd/agent-frei/main.go: runWorker, which makes a worker of the settings. A negative duration counts as
-- none; durations of Go are nanoseconds, those of the database microseconds.
pub mod Dry
use agent_frei_igi.Prelude.{
  ℕ, ◌/◌, Bool, true, Text, bytes, text_eq, Option, none, some, List, [], ◌∷◌, Result, ok, err, ℤ,
  to_nat, if◌then◌else◌, ◌≡◌, false,
}
use agent_frei_igi.Config.{Config, parse_token_key}
use agent_frei_igi.Crypto.{decrypt}
use agent_frei_igi.GithubApp.{base_url}
use agent_frei_igi.Llm.{Provider, Router}
use agent_frei_igi.Detective.Build.{DetectiveConfig}
use agent_frei_igi.Critic.Review.{Reviewer}
use agent_frei_igi.Diplomat.Publish.{PublisherConfig}
use agent_frei_igi.Worker.{WorkerConfig}
use agent_frei_igi.Main.{Outside, required_store}

module _ (x : Outside) (cfg : Config) where
  abbrev pub grok : Provider
  grok = record {
    name = bytes "grok";
    complete = x.run_cli (bytes "grok") cfg.grok_bin (bytes "--single" ∷ []);
  }

  abbrev pub agy : Provider
  agy = record {
    name = bytes "agy";
    complete = x.run_cli (bytes "agy") cfg.agy_bin (bytes "--print" ∷ []);
  }

  -- Any other name of a primary provider stands for agy, any other fallback for none.
  unfoldable pub router : Router
  router = record {
    primary = if text_eq cfg.llm_provider (bytes "grok") then grok else agy;
    fallback =
        if text_eq cfg.llm_fallback_provider (bytes "grok")
        then some grok
        else if text_eq cfg.llm_fallback_provider (bytes "agy")
        then some agy
        else none;
  }

  -- The client is passed to New, so that Build uses it.
  unfoldable pub detective_config : DetectiveConfig
  detective_config = record {
    injected = true;
    github_app_id = cfg.github_app_id;
    private_key_path = cfg.github_app_private_key_path;
    pem = x.read_file cfg.github_app_private_key_path;
    api_base_url = base_url cfg.github_api_base_url;
    max_files = cfg.detective_max_files;
    max_patch_bytes = cfg.detective_max_patch_bytes;
  }

  unfoldable pub reviewer : Reviewer
  reviewer = record {
    router = router;
    prompt_budget_tokens = cfg.prompt_budget_tokens;
    confidence_min = cfg.finding_confidence_min;
    unmarshal = x.unmarshal_findings;
    sha256_hex = x.sha256_hex;
    ids = x.ids;
  }

  unfoldable pub publisher_config : PublisherConfig
  publisher_config = record {
    publish_comments = cfg.ff_publish_comments;
    review_signature = cfg.ff_review_signature;
    app_bot_fallback = cfg.ff_app_bot_publish_fallback;
    token_key = parse_token_key cfg;
    decrypt = λ key blob. decrypt (x.aead key) blob;
    job_name = x.job_name;
  }

  -- lease.Microseconds()
  abbrev pub microseconds : ℤ → ℕ
  microseconds d = to_nat d / 1000

  -- NewWorker
  unfoldable pub new_worker : WorkerConfig
  new_worker = record {
    worker_id = cfg.worker_id;
    worker_lease = microseconds cfg.worker_lease;
    detective = detective_config;
    critic = reviewer;
    diplomat = publisher_config;
    marshal_context = x.marshal_context;
    marshal_result = x.marshal_result;
    locked = x.locked;
  }

abbrev with_store : Outside → Config → Result (Unit {0}) → Result WorkerConfig
with_store x cfg (ok u) = ok (new_worker x cfg)
with_store x cfg (err e) = err e

-- runWorker, up to the start of the worker's loops.
unfoldable pub run_worker : Outside → Result Config → Result WorkerConfig
run_worker x (err e) = err e
run_worker x (ok cfg) = with_store x cfg (required_store x cfg)
