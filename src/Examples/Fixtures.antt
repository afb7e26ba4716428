-- ===== src/Examples/Fixtures.antt =====
-- Rows, settings and a world for the examples.
use agent_frei_igi.Prelude.{
  ℕ, Bool, true, false, Text, bytes, Option, none, some, List, [], ◌∷◌, Result, ok, err, message,
  pos,
}
use agent_frei_igi.Domain.{
  JobStatus, pending, running, completed, ReviewJob, Installation, ChangedFile, ReviewContext,
}
use agent_frei_igi.Store.Db.{Db}
use agent_frei_igi.GithubApp.{Client, response}
use agent_frei_igi.World.{World, tick}
use agent_frei_igi.Llm.{Provider, Router}
use agent_frei_igi.Critic.{LlmFinding, LlmResult, Finding, ReviewResult}
use agent_frei_igi.Critic.Review.{Reviewer}
use agent_frei_igi.Detective.Build.{DetectiveConfig}
use agent_frei_igi.Diplomat.Publish.{PublisherConfig}
use agent_frei_igi.Worker.{WorkerConfig}

abbrev pub worker : Text
worker = bytes "w1"

abbrev pub job_of : JobStatus → ℕ → Option ℕ → Option Text → ReviewJob
job_of status gen until holder = record {
  id = 1;
  installation_id = 1;
  repo_full_name = bytes "o/r";
  pr_number = 7;
  head_sha = bytes "abc";
  base_sha = bytes "def";
  publisher_account_id = none;
  publisher_login = none;
  status = status;
  lock_generation = gen;
  locked_until = until;
  locked_by = holder;
  attempt = gen;
  last_error = none;
  context_blob = none;
  result_blob = none;
  prompt_version = none;
  created_at = 0;
  updated_at = 0;
}

abbrev pub waiting : ReviewJob
waiting = job_of pending 0 none none

abbrev pub held : ReviewJob
held = job_of running 1 (some 100) (some worker)

abbrev pub retaken : ReviewJob
retaken = job_of running 2 (some 200) (some (bytes "w2"))

abbrev pub finished_job : ReviewJob
finished_job = job_of completed 1 none none

abbrev pub never_locked : ReviewJob → Bool
never_locked j = false

abbrev pub changed : ChangedFile
changed = record {
  path = bytes "a.go";
  status = bytes "modified";
  previous_path = [];
  language = [];
  patch = bytes "+x";
  omitted = false;
  omit_reason = [];
}

abbrev pub llm_finding : LlmFinding
llm_finding = record {
  severity = bytes "error";
  category = bytes "bug";
  path = bytes "a.go";
  start_line = pos 3;
  end_line = pos 4;
  title = bytes "t";
  body = bytes "b";
  confidence = 9;
}

abbrev pub llm_result : LlmResult
llm_result = record { verdict = bytes "fine"; summary = []; findings = llm_finding ∷ [] }

abbrev pub unmarshal : Text → Result LlmResult
unmarshal s = ok llm_result

abbrev pub provider : Provider
provider = record { name = bytes "p"; complete = λ prompt. ok (bytes "{}") }

abbrev pub router : Router
router = record { primary = provider; fallback = none }

abbrev pub reviewer : Reviewer
reviewer = record {
  router = router;
  prompt_budget_tokens = pos 1000;
  confidence_min = 5;
  unmarshal = unmarshal;
  sha256_hex = λ s. s;
  ids = λ n. n ∷ [];
}

abbrev pub detective : DetectiveConfig
detective = record {
  injected = true;
  github_app_id = [];
  private_key_path = [];
  pem = ok [];
  api_base_url = [];
  max_files = pos 40;
  max_patch_bytes = pos 1000;
}

abbrev pub publisher : PublisherConfig
publisher = record {
  publish_comments = true;
  review_signature = true;
  app_bot_fallback = true;
  token_key = err (message (bytes "no key"));
  decrypt = λ key blob. ok blob;
  job_name = λ n. n ∷ [];
}

abbrev pub settings : WorkerConfig
settings = record {
  worker_id = worker;
  worker_lease = 100;
  detective = detective;
  critic = reviewer;
  diplomat = publisher;
  marshal_context = λ ctx. ok (bytes "ctx");
  marshal_result = λ r. ok (bytes "result");
  locked = never_locked;
}

abbrev pub installation : Installation
installation = record {
  id = 1;
  github_installation_id = 5;
  account_login = bytes "o";
  account_type = bytes "User";
  suspended_at = none;
  created_at = 0;
  updated_at = 0;
}

abbrev pub db_with : List ReviewJob → Db
db_with jobs = record {
  installations = installation ∷ [];
  accounts = [];
  jobs = jobs;
  publications = [];
  serial = 10;
  now = 0;
  moments = [];
}

abbrev pub client : Client
client = record {
  now = 0;
  jwt = ok (bytes "jwt");
  token_cache = [];
  token_replies =
      response 201 (ok (record { token = bytes "t1"; expires_at = 900000000 }))
      ∷ response 201 (ok (record { token = bytes "t2"; expires_at = 900000000 }))
      ∷ [];
  page_replies =
      response 200 (
        ok (record {
          files =
              record {
                filename = bytes "a.go";
                status = bytes "modified";
                previous_filename = [];
                patch = bytes "+x";
              }
              ∷ [];
          link = [];
        }))
      ∷ [];
  review_replies = response 200 (ok 77) ∷ [];
  posts = [];
}

abbrev pub world_with : List ReviewJob → World
world_with jobs = record {
  db = db_with jobs;
  github = client;
  ctx_err = none;
  signals = (tick ∷ []) ∷ [];
}

abbrev pub finding_on : ℕ → Finding
finding_on line = record {
  id = [];
  fingerprint = [];
  severity = bytes "error";
  category = bytes "bug";
  path = bytes "a.go";
  start_line = pos line;
  end_line = pos line;
  title = bytes "t";
  body = bytes "b";
  confidence = 9;
}

abbrev pub review_result : ReviewResult
review_result = record {
  prompt_version = bytes "critic-v1";
  model_used = bytes "p";
  verdict = bytes "fine";
  summary = [];
  findings = finding_on 3 ∷ finding_on 0 ∷ [];
  dropped = record { low_confidence = 0; bad_path = 0; invalid = 0 };
  provider_attempts = [];
}

abbrev pub context : ReviewContext
context = record {
  job_id = 1;
  installation_id = 1;
  github_install_id = 5;
  repo_full_name = bytes "o/r";
  pr_number = 7;
  head_sha = bytes "abc";
  base_sha = bytes "def";
  publisher_login = [];
  files = changed ∷ [];
  truncation = record {
    max_files = 40;
    max_patch_bytes = 1000;
    files_total = 1;
    files_included = 1;
    files_omitted = 0;
    patch_bytes_total = 2;
    patch_bytes_kept = 2;
    truncated_by_files = false;
    truncated_by_bytes = false;
  };
  built_at = 0;
}
