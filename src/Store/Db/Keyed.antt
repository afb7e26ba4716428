-- ===== src/Store/Db/Keyed.antt =====
-- The statements on the database keep the keys of `review_jobs` unique, and a job that CreateJob
-- (internal/store/postgres/store.go) returns is a row of the table.
use agent_frei_igi.Prelude.{
  ℕ, ◌≡◌, refl, Bool, true, false, some, [], ◌∷◌, ◌++◌, arith, Text, Result, ok, err, Error,
  Bool-cases, inl, inr, ◌≢◌, wrapped, message, canceled, deadline_exceeded, job_cancelled,
  job_already_exists, publication_exists, rate_limited, session_dead,
}
use agent_frei_igi.Domain.{ReviewJob}
use agent_frei_igi.Store.Rows.{any_row}
use agent_frei_igi.Store.Jobs
use agent_frei_igi.Store.Jobs.{Jobs, conflicts, cancel, open_for_pr, superseded}
use agent_frei_igi.Store.Jobs.Keys.{
  IsKeyed, create_job-IsKeyed, update_where-IsKeyed, history-IsKeyed,
}
use agent_frei_igi.Store.Db
use agent_frei_igi.Store.Db.{Db, Moment, pass, query, inserted, unique_or_wrapped, references_exist}
use agent_frei_igi.Store.Db.Rules.{query_rule, Survives}
use agent_frei_igi.Store.Publishing

abbrev pub KeyedDb : Db → Type 0
KeyedDb db = IsKeyed db.jobs

KeyedDb-survives : Survives KeyedDb
unfolding pass
KeyedDb-survives m ms db h = history-IsKeyed m.others db.jobs h

-- A statement that keeps the keys unique keeps them so over any connection.
query-KeyedDb :
    {A : Type 0} (statement : Db → Result A × Db)
    → ((db : Db) → KeyedDb db → KeyedDb (statement db).1)
    → (db : Db) → KeyedDb db
    → KeyedDb (query statement db).1
query-KeyedDb statement keeps =
    query_rule KeyedDb (λ r. KeyedDb r.1) statement KeyedDb-survives keeps (λ d e h. h)
      (λ d e h. keeps d h)

pub cancel_jobs_for_pr-KeyedDb :
    (inst : ℕ) (repo : Text) (pr : ℕ) (except : Text) (db : Db)
    → KeyedDb db
    → KeyedDb (Db.cancel_jobs_for_pr inst repo pr except db).1
unfolding Db.cancel_jobs_for_pr Jobs.cancel_jobs_for_pr
cancel_jobs_for_pr-KeyedDb inst repo pr except = query-KeyedDb _ (λ d h.
    update_where-IsKeyed (cancel d.now) (λ j. refl) (superseded inst repo pr except) d.jobs h)

pub cancel_open_jobs_for_pr-KeyedDb :
    (inst : ℕ) (repo : Text) (pr : ℕ) (db : Db)
    → KeyedDb db
    → KeyedDb (Db.cancel_open_jobs_for_pr inst repo pr db).1
unfolding Db.cancel_open_jobs_for_pr Jobs.cancel_open_jobs_for_pr
cancel_open_jobs_for_pr-KeyedDb inst repo pr =
    query-KeyedDb _
      (λ d h. update_where-IsKeyed (cancel d.now) (λ j. refl) (open_for_pr inst repo pr) d.jobs h)

pub get_account_by_login-KeyedDb :
    (login : Text) (db : Db) → KeyedDb db → KeyedDb (Publishing.get_account_by_login login db).1
unfolding Publishing.get_account_by_login
get_account_by_login-KeyedDb login = query-KeyedDb _ (λ d h. h)

inserted-KeyedDb :
    (refs : Bool) (r : Result ReviewJob × Jobs) (db : Db)
    → IsKeyed r.1
    → KeyedDb db
    → KeyedDb (inserted refs r db).1
inserted-KeyedDb refs (err e, rows) db new old = old
inserted-KeyedDb true (ok row, rows) db new old = new
inserted-KeyedDb false (ok row, rows) db new old = old

pub create_job-KeyedDb : (job : ReviewJob) (db : Db) → KeyedDb db → KeyedDb (Db.create_job job db).1
unfolding Db.create_job
create_job-KeyedDb job = query-KeyedDb _ (λ d h.
    inserted-KeyedDb (references_exist job d) (Jobs.create_job d.serial d.now job d.jobs) d
      (create_job-IsKeyed d.serial d.now job d.jobs h) h)

-- A row of the table that stands for the job, under an id and a time of the server.
pub record IsStored (job row : ReviewJob) (rows : Jobs) : Type 0 where
  pub fresh : ℕ
  pub time : ℕ
  pub stands_for : row ≡ record job { id = fresh; created_at = time; updated_at = time }
  pub found : Jobs.get_job row.id rows ≡ some row

snoc-get_job :
    (row : ReviewJob) (jobs : Jobs)
    → any_row (λ j. conflicts j row) jobs ≡ false
    → Jobs.get_job row.id (jobs ++ row ∷ []) ≡ some row
unfolding Jobs.get_job conflicts
snoc-get_job row [] free = ground arith
snoc-get_job row (j ∷ jobs) free = ground (arith, snoc-get_job row jobs)

table-IsStored :
    (fresh now : ℕ) (job : ReviewJob) (jobs : Jobs) {row : ReviewJob}
    → (Jobs.create_job fresh now job jobs).0 ≡ ok row
    → IsStored job row (Jobs.create_job fresh now job jobs).1
unfolding Jobs.create_job
table-IsStored fresh now job jobs {row} e =
    let new : ReviewJob = record job { id = fresh; created_at = now; updated_at = now } in
    elim (Bool-cases (any_row (λ j. conflicts j new) jobs)) [
      | inl taken ↦ absurd (cc (rw taken at e))
      | inr free ↦
          let same : new ≡ row = cc (rw free at e) in
          rw (free, ← same)
            (record {
              fresh = fresh;
              time = now;
              stands_for = refl;
              found = snoc-get_job new jobs free;
            })
    ]

unique_or_wrapped-err : (e : Error) {row : ReviewJob} → unique_or_wrapped (err e) ≢ ok row
unique_or_wrapped-err canceled h = cc
unique_or_wrapped-err deadline_exceeded h = cc
unique_or_wrapped-err job_cancelled h = cc
unique_or_wrapped-err job_already_exists h = cc
unique_or_wrapped-err publication_exists h = cc
unique_or_wrapped-err rate_limited h = cc
unique_or_wrapped-err session_dead h = cc
unique_or_wrapped-err (message m) h = cc
unique_or_wrapped-err (wrapped m e) h = cc

inserted-IsStored :
    (job : ReviewJob) (refs : Bool) (r : Result ReviewJob × Jobs) (db : Db) {row : ReviewJob}
    → (r.0 ≡ ok row → IsStored job row r.1)
    → unique_or_wrapped (inserted refs r db).0 ≡ ok row
    → IsStored job row (inserted refs r db).1.jobs
inserted-IsStored job refs (err e, rows) db stored h = absurd (unique_or_wrapped-err e h)
inserted-IsStored job true (ok row', rows) db stored h = stored h
inserted-IsStored job false (ok row', rows) db stored h = cc

pub create_job-IsStored :
    (job : ReviewJob) (db : Db) {row : ReviewJob}
    → (Db.create_job job db).0 ≡ ok row
    → IsStored job row (Db.create_job job db).1.jobs
unfolding Db.create_job
create_job-IsStored job db {row} =
    query_rule (λ d. Unit {0}) (λ r. unique_or_wrapped r.0 ≡ ok row → IsStored job row r.1.jobs) _
      (λ m ms d p. tt)
      (λ d p.
        inserted-IsStored job (references_exist job d) (Jobs.create_job d.serial d.now job d.jobs) d
          (table-IsStored d.serial d.now job d.jobs))
      (λ d e p h. absurd (unique_or_wrapped-err e h))
      (λ d e p h. absurd (unique_or_wrapped-err e h)) db tt
