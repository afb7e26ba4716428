-- ===== src/Store/Db.antt =====
-- The methods of `Store` (internal/store/postgres/store.go) as actions on a database that other
-- processes use too, over a connection that may fail. Before each statement the next moment passes:
-- time goes by, and the statements of others run.
pub mod Rules
pub mod Keyed
use agent_frei_igi.Prelude.{
  ℕ, zero, suc, ◌+◌, Option, none, some, List, [], ◌∷◌, ◌++◌, Bool, true, false, Text, bytes, Error,
  message, wrapped, job_already_exists, is_publication_exists, Result, ok, err, wrap, Action,
  wrapping, if◌then◌else◌, is_some, not, ◌&&◌, get_or_else,
}
use agent_frei_igi.Domain.{
  Installation, GitHubAccount, AccountStatus, ReviewJob, ReviewPublication, PublisherKind,
}
use agent_frei_igi.Store.Jobs
use agent_frei_igi.Store.Jobs.Commands.{Command, history}
use agent_frei_igi.Store.Publications
use agent_frei_igi.Store.Publications.{PublicationCommand, run_publications}
use agent_frei_igi.Store.Accounts
use agent_frei_igi.Store.Installations

-- What becomes of a statement: it runs, it does not reach the server, or it runs and the reply is
-- lost. The error is the driver's, or that of a context that was cancelled meanwhile.
pub data Link : Type 0 where
  up : Link
  down unacknowledged : Error → Link

pub record Moment : Type 0 where
  pub elapsed : ℕ
  pub link : Link
  pub others : List Command
  pub publishers : List PublicationCommand

pub record Db : Type 0 where
  pub installations : Installations.Installations
  pub accounts : Accounts.Accounts
  pub jobs : Jobs.Jobs
  pub publications : Publications.Publications
  pub serial : ℕ
  pub now : ℕ
  pub moments : List Moment

-- The next moment passes.
unfoldable pub pass : Moment → List Moment → Db → Db
pass m ms db = record db {
  jobs = history m.others db.jobs;
  publications = run_publications m.publishers db.publications;
  now = db.now + m.elapsed;
  moments = ms;
}

module _ {A : Type 0} where
  abbrev pub deliver : Link → (Db → Result A × Db) → Db → Result A × Db
  deliver up statement db = statement db
  deliver (down e) statement db = (err e, db)
  deliver (unacknowledged e) statement db = (err e, (statement db).1)

  abbrev pub at_moment : List Moment → (Db → Result A × Db) → Db → Result A × Db
  at_moment [] statement db = statement db
  at_moment (m ∷ ms) statement db = deliver m.link statement (pass m ms db)

  -- One round trip to the server.
  unfoldable pub query : (Db → Result A × Db) → Action Db A
  unfolding pass
  query statement db = at_moment db.moments statement db

-- GetInstallation
unfoldable pub get_installation : ℕ → Action Db (Option Installation)
get_installation id =
    wrapping (bytes "failed to get installation")
      (query λ db. (ok (Installations.get_installation id db.installations), db))

-- GetInstallationByGitHubID
unfoldable pub get_installation_by_github_id : ℕ → Action Db (Option Installation)
get_installation_by_github_id github =
    wrapping (bytes "failed to get installation by github id")
      (query λ db. (ok (Installations.get_installation_by_github_id github db.installations), db))

-- UpsertInstallation; the value returned is the argument with the columns that were scanned into it.
unfoldable pub upsert_installation : Installation → Action Db Installation
upsert_installation inst = wrapping (bytes "failed to upsert installation") (
    query λ db.
      let rows = Installations.upsert_installation db.serial db.now inst db.installations in
      (
        ok (Installations.returned_installation inst rows),
        record db { installations = rows; serial = suc db.serial },
      ))

-- REFERENCES installations(id), and github_accounts(id) where it is not NULL
unfoldable pub references_exist : ReviewJob → Db → Bool
references_exist job db =
    is_some (Installations.get_installation job.installation_id db.installations)
    && get_or_else true job.publisher_account_id (λ account. Accounts.id_exists account db.accounts)

-- The unique index is checked first, then the foreign keys; a refused row is not kept.
abbrev pub inserted : Bool → Result ReviewJob × Jobs.Jobs → Db → Result ReviewJob × Db
inserted refs (err e, rows) db = (err e, record db { serial = suc db.serial })
inserted true (ok row, rows) db = (ok row, record db { jobs = rows; serial = suc db.serial })
inserted false (ok row, rows) db =
    (err (message (bytes "foreign key violation")), record db { serial = suc db.serial })

-- `isUniqueViolation`, and the wrapping of any other error
abbrev pub unique_or_wrapped : Result ReviewJob → Result ReviewJob
unique_or_wrapped (ok row) = ok row
unique_or_wrapped (err job_already_exists) = err job_already_exists
unique_or_wrapped (err e) = err (wrapped (bytes "failed to create job") e)

-- CreateJob
unfoldable pub create_job : ReviewJob → Action Db ReviewJob
unfolding references_exist
create_job job db =
    let (r, db') =
      query (λ d. inserted (references_exist job d) (Jobs.create_job d.serial d.now job d.jobs) d)
        db in
    (unique_or_wrapped r, db')

-- GetJob
unfoldable pub get_job : ℕ → Action Db (Option ReviewJob)
get_job id = wrapping (bytes "failed to get job") (query λ db. (ok (Jobs.get_job id db.jobs), db))

-- CancelJobsForPR
unfoldable pub cancel_jobs_for_pr : ℕ → Text → ℕ → Text → Action Db ℕ
cancel_jobs_for_pr inst repo pr except = wrapping (bytes "failed to cancel jobs") (
    query λ db.
      let (n, rows) = Jobs.cancel_jobs_for_pr db.now inst repo pr except db.jobs in
      (ok n, record db { jobs = rows }))

-- CancelOpenJobsForPR
unfoldable pub cancel_open_jobs_for_pr : ℕ → Text → ℕ → Action Db ℕ
cancel_open_jobs_for_pr inst repo pr = wrapping (bytes "failed to cancel open jobs") (
    query λ db.
      let (n, rows) = Jobs.cancel_open_jobs_for_pr db.now inst repo pr db.jobs in
      (ok n, record db { jobs = rows }))

-- ClaimJob
unfoldable pub claim_job : (ReviewJob → Bool) → Text → ℕ → Action Db (Option ReviewJob)
claim_job locked worker lease = query λ db.
    let (r, rows) = Jobs.claim_job locked db.now worker lease db.jobs in
    (r, record db { jobs = rows })

-- HeartbeatJob
unfoldable pub heartbeat_job : ℕ → ℕ → Text → ℕ → Action Db Bool
heartbeat_job id gen worker lease = wrapping (bytes "heartbeat query failed") (
    query λ db.
      let (b, rows) = Jobs.heartbeat_job db.now id gen worker lease db.jobs in
      (ok b, record db { jobs = rows }))

-- A failed connection is wrapped; a refused update is the statement's own error.
abbrev refusal_or_wrapped : Text → Result (Result (Unit {0})) → Result (Unit {0})
refusal_or_wrapped m (ok r) = r
refusal_or_wrapped m (err e) = err (wrapped m e)

unfoldable pub fenced_query :
    Text → (ℕ → Jobs.Jobs → Result (Unit {0}) × Jobs.Jobs) → Action Db (Unit {0})
unfolding query
fenced_query m statement db =
    let (r, db') =
      query (λ d. let (r, rows) = statement d.now d.jobs in (ok r, record d { jobs = rows })) db in
    (refusal_or_wrapped m r, db')

-- CompleteJob
unfoldable pub complete_job : ℕ → ℕ → Text → Option Text → Action Db (Unit {0})
unfolding fenced_query
complete_job id gen worker result =
    fenced_query (bytes "complete query failed")
      (λ now rows. Jobs.complete_job now id gen worker result rows)

-- FailJob
unfoldable pub fail_job : ℕ → ℕ → Text → Text → Action Db (Unit {0})
unfolding fenced_query
fail_job id gen worker msg =
    fenced_query (bytes "fail query failed") (λ now rows. Jobs.fail_job now id gen worker msg rows)

-- UpdateJobContext
unfoldable pub update_job_context : ℕ → ℕ → Text → Option Text → Action Db (Unit {0})
unfolding fenced_query
update_job_context id gen worker blob =
    fenced_query (bytes "failed to update job context query")
      (λ now rows. Jobs.update_job_context now id gen worker blob rows)

-- UpdateJobResult
unfoldable pub update_job_result : ℕ → ℕ → Text → Option Text → Text → Action Db (Unit {0})
unfolding fenced_query
update_job_result id gen worker blob version =
    fenced_query (bytes "failed to update job result query")
      (λ now rows. Jobs.update_job_result now id gen worker blob version rows)
