-- ===== src/Detective/Build.antt =====
-- internal/detective/detective.go. The text of an error leaves out the input that Go quotes in it.
use agent_frei_igi.Prelude.{
  ℕ, Bool, true, false, ◌||◌, Text, bytes, is_empty, split, decimal, List, [], ◌∷◌, ◌++◌, Option,
  none, some, Result, ok, message, Action, pure, fail, wrapping, wrap, ◌>>=◌, ◌>>◌, if◌then◌else◌,
  get_or_else, ℤ,
}
use agent_frei_igi.Domain.{Installation, ReviewJob, ReviewContext, ChangedFile}
use agent_frei_igi.Store.Db
use agent_frei_igi.Store.Db.{Db}
use agent_frei_igi.GithubApp.{get_installation_token, list_pr_files}
use agent_frei_igi.World.{World, on_db, on_github}
use agent_frei_igi.Detective.Truncate.{truncate_pr_files}

-- The fields of config.Config that Build reads; `injected` says that the client was passed to New, and
-- `pem` is what reading the key file gives.
pub record DetectiveConfig : Type 0 where
  pub injected : Bool
  pub github_app_id : Text
  pub private_key_path : Text
  pub pem : Result Text
  pub api_base_url : Text
  pub max_files : ℤ
  pub max_patch_bytes : ℤ

-- The credentials are read only where no client was passed in.
unfoldable pub credentials : DetectiveConfig → Action World Text
credentials cfg =
    if cfg.injected
    then pure []
    else if is_empty cfg.github_app_id || is_empty cfg.private_key_path
    then fail (
        message (
          bytes
            "GitHub App credentials (GITHUB_APP_ID or GITHUB_APP_PRIVATE_KEY_PATH) are not configured"))
    else λ w. (wrap (bytes "failed to read private key PEM file") cfg.pem, w)

-- The row, or the error for a missing one.
unfoldable pub existing_installation : ℕ → Option Installation → Action World Installation
existing_installation id none =
    fail (message (bytes "installation " ++ decimal id ++ bytes " not found in database"))
existing_installation id (some inst) = pure inst

-- strings.Split(repo, "/") with two parts
unfoldable pub owner_and_repo : Text → Option (Text × Text)
owner_and_repo name = elim (split b'/' name) [
  | [] ↦ none
  | owner ∷ ps ↦ elim ps [
    | [] ↦ none
    | repo ∷ more ↦ elim more [ [] ↦ some (owner, repo) | _ ∷ _ ↦ none ]
  ]
]

abbrev pub named : Option (Text × Text) → Action World (Text × Text)
named none = fail (message (bytes "invalid repo_full_name format"))
named (some p) = pure p

-- A client that Build makes for itself starts with an empty token cache.
unfoldable pub choose_client : Bool → Action World (Unit {0})
choose_client true = pure tt
choose_client false = on_github (λ c. (ok tt, record c { token_cache = [] }))

-- The URL of the first page of ListPRFiles.
unfoldable pub files_url : Text → Text → Text → ℕ → Text
files_url base owner repo pr =
    base
    ++ bytes "/repos/"
    ++ owner
    ++ bytes "/"
    ++ repo
    ++ bytes "/pulls/"
    ++ decimal pr
    ++ bytes "/files?per_page=100"

-- The context of step 5.
unfoldable pub review_context :
    DetectiveConfig → ReviewJob → Installation → List ChangedFile → ℕ → ReviewContext
review_context cfg job inst files now =
    let (kept, info) = truncate_pr_files files cfg.max_files cfg.max_patch_bytes in
    record {
      job_id = job.id;
      installation_id = job.installation_id;
      github_install_id = inst.github_installation_id;
      repo_full_name = job.repo_full_name;
      pr_number = job.pr_number;
      head_sha = job.head_sha;
      base_sha = job.base_sha;
      publisher_login = get_or_else [] job.publisher_login (λ l. l);
      files = kept;
      truncation = info;
      built_at = now;
    }

-- Build, for a job that is not nil
unfoldable pub build : DetectiveConfig → ReviewJob → Action World ReviewContext
unfolding credentials choose_client existing_installation owner_and_repo files_url review_context
build cfg job = do
  credentials cfg
  row ←
      wrapping (bytes "failed to load installation")
        (on_db (Db.get_installation job.installation_id))
  inst ← existing_installation job.installation_id row
  name ← named (owner_and_repo job.repo_full_name)
  choose_client cfg.injected
  token ←
      wrapping (bytes "failed to get installation access token")
        (on_github (get_installation_token inst.github_installation_id))
  files ←
      wrapping (bytes "failed to fetch PR files")
        (on_github (list_pr_files (files_url cfg.api_base_url name.0 name.1 job.pr_number)))
  λ w. (ok (review_context cfg job inst files w.db.now), w)
