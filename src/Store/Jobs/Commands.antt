-- ===== src/Store/Jobs/Commands.antt =====
-- The statements of store.go on `review_jobs` as data: a list of commands is an interleaving of what
-- the webhook server and any number of workers do to the table.
use agent_frei_igi.Prelude.{ℕ, Bool, Option, List, [], ◌∷◌, Text}
use agent_frei_igi.Domain.{ReviewJob}
use agent_frei_igi.Store.Jobs.{
  Jobs, create_job, cancel_jobs_for_pr, cancel_open_jobs_for_pr, claim_job, heartbeat_job,
  complete_job, fail_job, update_job_context, update_job_result,
}

-- The first number of each is the server's time.
pub data Command : Type 0 where
  create : ℕ → ℕ → ReviewJob → Command
  supersede : ℕ → ℕ → Text → ℕ → Text → Command
  close : ℕ → ℕ → Text → ℕ → Command
  claim : ℕ → (ReviewJob → Bool) → Text → ℕ → Command
  heartbeat : ℕ → ℕ → ℕ → Text → ℕ → Command
  finish : ℕ → ℕ → ℕ → Text → Option Text → Command
  give_up : ℕ → ℕ → ℕ → Text → Text → Command
  save_context : ℕ → ℕ → ℕ → Text → Option Text → Command
  save_result : ℕ → ℕ → ℕ → Text → Option Text → Text → Command

unfoldable pub run : Command → Jobs → Jobs
run (create now fresh job) jobs = (create_job fresh now job jobs).1
run (supersede now inst repo pr except) jobs = (cancel_jobs_for_pr now inst repo pr except jobs).1
run (close now inst repo pr) jobs = (cancel_open_jobs_for_pr now inst repo pr jobs).1
run (claim now locked worker lease) jobs = (claim_job locked now worker lease jobs).1
run (heartbeat now id gen worker lease) jobs = (heartbeat_job now id gen worker lease jobs).1
run (finish now id gen worker result) jobs = (complete_job now id gen worker result jobs).1
run (give_up now id gen worker msg) jobs = (fail_job now id gen worker msg jobs).1
run (save_context now id gen worker blob) jobs = (update_job_context now id gen worker blob jobs).1
run (save_result now id gen worker blob version) jobs =
    (update_job_result now id gen worker blob version jobs).1

unfoldable pub history : List Command → Jobs → Jobs
history [] jobs = jobs
history (c ∷ cs) jobs = history cs (run c jobs)
