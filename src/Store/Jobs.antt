-- ===== src/Store/Jobs.antt =====
-- internal/store/postgres/store.go, the statements on `review_jobs`: each is a function on the rows
-- of that table, with the server's time as an argument. A statement runs atomically.
pub mod Commands
pub mod Columns
pub mod Lifecycle
pub mod Keys
pub mod Machine
pub mod Fencing
pub mod Claim
pub mod Lease
pub mod Drain
pub mod Served
pub mod Cancel
use agent_frei_igi.Prelude.{
  ℕ, ◌+◌, ◌^◌, Bool, true, false, not, ◌&&◌, ◌||◌, Option, none, some, List, [], ◌∷◌, ◌++◌, Text,
  bytes, text_eq, message, wrapped, job_already_exists, Result, ok, err, ltb, ◌==◌, if◌then◌else◌,
}
use agent_frei_igi.Domain.{JobStatus, running, completed, failed, cancelled, is_running, ReviewJob}
use agent_frei_igi.Store.Rows.{update_where, rows_where, any_row, first_row}

abbrev pub Jobs : Type 0
Jobs = List ReviewJob

-- PRIMARY KEY (id) and UNIQUE (installation_id, repo_full_name, pr_number, head_sha)
unfoldable pub same_key : ReviewJob → ReviewJob → Bool
same_key a b =
    a.installation_id == b.installation_id
    && text_eq a.repo_full_name b.repo_full_name
    && a.pr_number == b.pr_number
    && text_eq a.head_sha b.head_sha

unfoldable pub conflicts : ReviewJob → ReviewJob → Bool
conflicts a b = a.id == b.id || same_key a b

-- GetJob
unfoldable pub get_job : ℕ → Jobs → Option ReviewJob
get_job id = first_row (λ j. j.id == id)

-- CreateJob: the row takes a fresh id and the server's time.
unfoldable pub create_job : ℕ → ℕ → ReviewJob → Jobs → Result ReviewJob × Jobs
create_job fresh now job jobs =
    let row = record job { id = fresh; created_at = now; updated_at = now } in
    if any_row (λ j. conflicts j row) jobs
    then (err job_already_exists, jobs)
    else (ok row, jobs ++ row ∷ [])

-- status IN ('pending', 'running', 'retry_wait')
abbrev pub is_open : JobStatus → Bool
is_open JobStatus.pending = true
is_open JobStatus.running = true
is_open JobStatus.retry_wait = true
is_open _ = false

unfoldable pub open_for_pr : ℕ → Text → ℕ → ReviewJob → Bool
open_for_pr inst repo pr j =
    j.installation_id == inst
    && text_eq j.repo_full_name repo
    && j.pr_number == pr
    && is_open j.status

unfoldable pub superseded : ℕ → Text → ℕ → Text → ReviewJob → Bool
unfolding open_for_pr
superseded inst repo pr except j = open_for_pr inst repo pr j && not (text_eq j.head_sha except)

abbrev pub cancel : ℕ → ReviewJob → ReviewJob
cancel now j = record j { status = cancelled; updated_at = now }

-- CancelJobsForPR
unfoldable pub cancel_jobs_for_pr : ℕ → ℕ → Text → ℕ → Text → Jobs → ℕ × Jobs
unfolding superseded
cancel_jobs_for_pr now inst repo pr except jobs = (
  rows_where (superseded inst repo pr except) jobs,
  update_where (superseded inst repo pr except) (cancel now) jobs,
)

-- CancelOpenJobsForPR
unfoldable pub cancel_open_jobs_for_pr : ℕ → ℕ → Text → ℕ → Jobs → ℕ × Jobs
unfolding open_for_pr
cancel_open_jobs_for_pr now inst repo pr jobs = (
  rows_where (open_for_pr inst repo pr) jobs,
  update_where (open_for_pr inst repo pr) (cancel now) jobs,
)

-- locked_until IS NOT NULL AND locked_until < NOW()
abbrev pub expired : ℕ → Option ℕ → Bool
expired now none = false
expired now (some u) = ltb u now

-- The WHERE clause of `candidate` in ClaimJob.
abbrev pub claimable_status : ℕ → Option ℕ → JobStatus → Bool
claimable_status now until JobStatus.pending = true
claimable_status now until JobStatus.retry_wait = true
claimable_status now until JobStatus.needs_reconcile = true
claimable_status now until JobStatus.running = expired now until
claimable_status now until _ = false

unfoldable pub claimable : ℕ → ReviewJob → Bool
claimable now j = claimable_status now j.locked_until j.status

-- ORDER BY created_at ASC LIMIT 1, over the selected rows; of equally old rows the first is taken.
abbrev pub older : ReviewJob → Option ReviewJob → Option ReviewJob
older j none = some j
older j (some k) = if ltb k.created_at j.created_at then some k else some j

unfoldable pub oldest : (ReviewJob → Bool) → Jobs → Option ReviewJob
oldest p [] = none
oldest p (j ∷ js) = let rest = oldest p js in if p j then older j rest else rest

-- The SET clause of ClaimJob.
unfoldable pub claimed : ℕ → Text → ℕ → ReviewJob → ReviewJob
claimed now worker lease j = record j {
  status = running;
  lock_generation = j.lock_generation + 1;
  locked_by = some worker;
  locked_until = some (now + lease);
  attempt = j.attempt + 1;
  updated_at = now;
}

-- BIGINT and INT hold the counters; past them the server refuses the statement.
unfoldable pub counters_fit : ReviewJob → Bool
counters_fit j = ltb (j.lock_generation + 1) (2 ^ 63) && ltb (j.attempt + 1) (2 ^ 31)

-- The outer UPDATE of ClaimJob, for the candidate that was selected.
unfoldable pub claim_candidate :
    ℕ → Text → ℕ → Option ReviewJob → Jobs → Result (Option ReviewJob) × Jobs
unfolding claimed
claim_candidate now worker lease none jobs = (ok none, jobs)
claim_candidate now worker lease (some c) jobs =
    if counters_fit c
    then (
      ok (some (claimed now worker lease c)),
      update_where (λ j. j.id == c.id) (claimed now worker lease) jobs,
    )
    else (
      err (wrapped (bytes "failed to claim job") (message (bytes "integer out of range"))),
      jobs,
    )

-- ClaimJob; FOR UPDATE SKIP LOCKED passes over the rows that other transactions hold locked.
unfoldable pub claim_job :
    (ReviewJob → Bool) → ℕ → Text → ℕ → Jobs → Result (Option ReviewJob) × Jobs
unfolding claim_candidate
claim_job locked now worker lease jobs =
    claim_candidate now worker lease (oldest (λ j. claimable now j && not (locked j)) jobs) jobs

abbrev pub held_by : Option Text → Text → Bool
held_by none worker = false
held_by (some w) worker = text_eq w worker

-- WHERE id = $ AND lock_generation = $ AND locked_by = $ AND status = 'running'
unfoldable pub owned : ℕ → ℕ → Text → ReviewJob → Bool
owned id gen worker j =
    j.id == id && j.lock_generation == gen && held_by j.locked_by worker && is_running j.status

abbrev pub beat : ℕ → ℕ → ReviewJob → ReviewJob
beat now lease j = record j { locked_until = some (now + lease); updated_at = now }

-- HeartbeatJob
unfoldable pub heartbeat_job : ℕ → ℕ → ℕ → Text → ℕ → Jobs → Bool × Jobs
unfolding owned
heartbeat_job now id gen worker lease jobs = (
  ltb 0 (rows_where (owned id gen worker) jobs),
  update_where (owned id gen worker) (beat now lease) jobs,
)

-- The fenced updates: no row affected is an error.
abbrev fenced : Text → ℕ → Result (Unit {0})
fenced m n = if n == 0 then err (message m) else ok tt

abbrev pub complete : ℕ → Option Text → ReviewJob → ReviewJob
complete now result j = record j {
  status = completed;
  result_blob = result;
  locked_by = none;
  locked_until = none;
  updated_at = now;
}

-- CompleteJob
unfoldable pub complete_job : ℕ → ℕ → ℕ → Text → Option Text → Jobs → Result (Unit {0}) × Jobs
unfolding owned
complete_job now id gen worker result jobs = (
  fenced (bytes "failed to complete job: lost ownership or job not running")
      (rows_where (owned id gen worker) jobs),
  update_where (owned id gen worker) (complete now result) jobs,
)

abbrev pub fail_row : ℕ → Text → ReviewJob → ReviewJob
fail_row now msg j = record j {
  status = failed;
  last_error = some msg;
  locked_by = none;
  locked_until = none;
  updated_at = now;
}

-- FailJob
unfoldable pub fail_job : ℕ → ℕ → ℕ → Text → Text → Jobs → Result (Unit {0}) × Jobs
unfolding owned
fail_job now id gen worker msg jobs = (
  fenced (bytes "failed to fail job: lost ownership or job not running")
      (rows_where (owned id gen worker) jobs),
  update_where (owned id gen worker) (fail_row now msg) jobs,
)

abbrev pub set_context : ℕ → Option Text → ReviewJob → ReviewJob
set_context now blob j = record j { context_blob = blob; updated_at = now }

-- UpdateJobContext
unfoldable pub update_job_context : ℕ → ℕ → ℕ → Text → Option Text → Jobs → Result (Unit {0}) × Jobs
unfolding owned
update_job_context now id gen worker blob jobs = (
  fenced (bytes "failed to update job context: lost ownership or job not running")
      (rows_where (owned id gen worker) jobs),
  update_where (owned id gen worker) (set_context now blob) jobs,
)

abbrev pub set_result : ℕ → Option Text → Text → ReviewJob → ReviewJob
set_result now blob version j = record j {
  result_blob = blob;
  prompt_version = some version;
  updated_at = now;
}

-- UpdateJobResult
unfoldable pub update_job_result :
    ℕ → ℕ → ℕ → Text → Option Text → Text → Jobs → Result (Unit {0}) × Jobs
unfolding owned
update_job_result now id gen worker blob version jobs = (
  fenced (bytes "failed to update job result: lost ownership or job not running")
      (rows_where (owned id gen worker) jobs),
  update_where (owned id gen worker) (set_result now blob version) jobs,
)
