-- ===== src/Domain.antt =====
-- internal/domain: the rows of the four tables and their enumerations. A Go string is its bytes, a
-- time and a duration are microseconds, a UUID and a serial id are numbers, `nil` is `none`.
use mathlib.Core.Bool.{Bool, true, false}
use agent_frei_igi.Prelude.{ℕ, Text, Option, List}

-- job.go
pub data JobStatus : Type 0 where
  pending running retry_wait completed failed cancelled needs_reconcile : JobStatus

pub JobStatus-discrete : Discrete JobStatus
JobStatus-discrete = hlevel

abbrev pub is_running : JobStatus → Bool
is_running JobStatus.running = true
is_running _ = false

pub record ReviewJob : Type 0 where
  pub id : ℕ
  pub installation_id : ℕ
  pub repo_full_name : Text
  pub pr_number : ℕ
  pub head_sha : Text
  pub base_sha : Text
  pub publisher_account_id : Option ℕ
  pub publisher_login : Option Text
  pub status : JobStatus
  pub lock_generation : ℕ  -- BIGINT
  pub locked_until : Option ℕ
  pub locked_by : Option Text
  pub attempt : ℕ  -- INT
  pub last_error : Option Text
  pub context_blob : Option Text
  pub result_blob : Option Text
  pub prompt_version : Option Text
  pub created_at : ℕ
  pub updated_at : ℕ

-- account.go
pub data AccountStatus : Type 0 where
  active invalid disabled : AccountStatus

pub record GitHubAccount : Type 0 where
  pub id : ℕ
  pub github_login : Text
  pub access_token_enc : Text
  pub token_expires_at : Option ℕ
  pub status : AccountStatus
  pub last_used_at : Option ℕ
  pub created_at : ℕ
  pub updated_at : ℕ

-- installation.go; the account type is kept as the text of the webhook
pub record Installation : Type 0 where
  pub id : ℕ
  pub github_installation_id : ℕ
  pub account_login : Text
  pub account_type : Text
  pub suspended_at : Option ℕ
  pub created_at : ℕ
  pub updated_at : ℕ

-- publication.go
pub data PublicationState : Type 0 where
  pending_github published failed_publication : PublicationState

pub data PublisherKind : Type 0 where
  user app_bot : PublisherKind

pub record ReviewPublication : Type 0 where
  pub id : ℕ
  pub job_id : ℕ
  pub publisher_account_id : Option ℕ
  pub publisher_kind : PublisherKind
  pub state : PublicationState
  pub github_review_id : Option ℕ
  pub published_at : Option ℕ
  pub created_at : ℕ
  pub updated_at : ℕ

-- review_context.go
pub record ChangedFile : Type 0 where
  pub path : Text
  pub status : Text
  pub previous_path : Text
  pub language : Text
  pub patch : Text
  pub omitted : Bool
  pub omit_reason : Text

pub record TruncationInfo : Type 0 where
  pub max_files : ℕ
  pub max_patch_bytes : ℕ
  pub files_total : ℕ
  pub files_included : ℕ
  pub files_omitted : ℕ
  pub patch_bytes_total : ℕ
  pub patch_bytes_kept : ℕ
  pub truncated_by_files : Bool
  pub truncated_by_bytes : Bool

-- The rules of a ReviewContext are never filled in.
pub record ReviewContext : Type 0 where
  pub job_id : ℕ
  pub installation_id : ℕ
  pub github_install_id : ℕ
  pub repo_full_name : Text
  pub pr_number : ℕ
  pub head_sha : Text
  pub base_sha : Text
  pub publisher_login : Text
  pub files : List ChangedFile
  pub truncation : TruncationInfo
  pub built_at : ℕ
