-- ===== src/Queue/Served.antt =====
-- From handlePullRequestEvent (internal/queue/enqueue.go) to ClaimJob
-- (internal/store/postgres/store.go): an event's job reaches a worker.
use agent_frei_igi.Prelude.{
  ℕ, ◌≤◌, ◌≡◌, ◌∙◌, inl, ap, subst, Bool, false, Text, Option, none, some, List, [], Result, ok,
  err, All, Bool-cases, inr, is_some, is_job_already_exists, length,
}
use agent_frei_igi.Domain.{Installation, GitHubAccount, ReviewJob}
use agent_frei_igi.Webhook.{PrPayload, WebhookPayload}
use agent_frei_igi.Store.Rows.{rows_where}
use agent_frei_igi.Store.Jobs.{Jobs, get_job}
use agent_frei_igi.Store.Jobs.Keys.{IsKeyed}
use agent_frei_igi.Store.Jobs.Claim.{available}
use agent_frei_igi.Store.Jobs.Drain.{CanCount, claim_each}
use agent_frei_igi.Store.Jobs.Served.{HandedOut, waiting-HandedOut}
use agent_frei_igi.Store.Db
use agent_frei_igi.Store.Db.{Db}
use agent_frei_igi.Store.Db.Keyed.{
  KeyedDb, cancel_jobs_for_pr-KeyedDb, cancel_open_jobs_for_pr-KeyedDb,
  get_account_by_login-KeyedDb, create_job-KeyedDb, IsStored,
}
use agent_frei_igi.Store.Publishing
use agent_frei_igi.Queue.{
  Enqueuer, Handler, or_failed, created, new_job, create, enqueue, enqueue_for, is_closing, any_of,
  allowed_actions, is_skipped_draft, handle_pr, match_reviewer, enqueued,
}
use agent_frei_igi.Queue.Gate.{IsJobFor, handle_pr-Passed}

or_failed-KeyedDb :
    {A : Type 0} (m : Text) (k : A → Handler) (r : Result A) (db : Db)
    → ((a : A) → KeyedDb (k a db).1)
    → KeyedDb db
    → KeyedDb (or_failed m k r db).1
or_failed-KeyedDb m k (ok a) db next h = next a
or_failed-KeyedDb m k (err e) db next h = h

created-KeyedDb : (r : Result ReviewJob) (db : Db) → KeyedDb db → KeyedDb (created r db).1
created-KeyedDb (ok row) db h = h
created-KeyedDb (err e) db h = elim (Bool-cases (is_job_already_exists e)) [
  | inl same ↦ rw same h
  | inr other ↦ rw other h
]

module _ (enq : Enqueuer) (payload : WebhookPayload) (inst : Installation) (repo : Text)
    (pr : PrPayload) where
  enqueue-KeyedDb :
      (login : Text) (db : Db) → KeyedDb db → KeyedDb (enqueue enq payload inst repo pr login db).1
  unfolding enqueue
  enqueue-KeyedDb login db h =
      let c = Db.cancel_jobs_for_pr inst.id repo pr.number pr.head_sha db in
      let h₁ = cancel_jobs_for_pr-KeyedDb inst.id repo pr.number pr.head_sha db h in
      let g = Publishing.get_account_by_login login c.1 in
      let h₂ = get_account_by_login-KeyedDb login c.1 h₁ in
      or_failed-KeyedDb _ _ c.0 c.1
        (λ n.
          or_failed-KeyedDb _ (create enq payload inst repo pr login) g.0 g.1
            (λ account.
              let job = new_job (enq.marshal payload) inst.id repo pr account login in
              created-KeyedDb (Db.create_job job g.1).0 (Db.create_job job g.1).1
                (create_job-KeyedDb job g.1 h₂))
            h₂)
        h₁

  enqueue_for-KeyedDb :
      (reviewer : Option Text) (db : Db)
      → KeyedDb db
      → KeyedDb (enqueue_for enq payload inst repo pr reviewer db).1
  enqueue_for-KeyedDb none db h = h
  enqueue_for-KeyedDb (some login) db h = enqueue-KeyedDb login db h

  -- Whatever the event, and whatever fails, the keys of the jobs stay unique.
  handle_pr-KeyedDb : (db : Db) → KeyedDb db → KeyedDb (handle_pr enq payload inst repo pr db).1
  unfolding handle_pr
  handle_pr-KeyedDb db h = elim (Bool-cases (is_closing enq payload inst repo pr)) [
    | inl closing ↦
        let c = Db.cancel_open_jobs_for_pr inst.id repo pr.number db in
        let h₁ = cancel_open_jobs_for_pr-KeyedDb inst.id repo pr.number db h in
        rw closing (or_failed-KeyedDb _ _ c.0 c.1 (λ n. h₁) h₁)
    | inr stays ↦ elim (Bool-cases (is_some inst.suspended_at)) [
      | inl suspended ↦ rw (stays, suspended) h
      | inr active ↦
          elim (Bool-cases (any_of payload.action (allowed_actions enq payload inst repo pr))) [
            | inr other ↦ rw (stays, active, other) h
            | inl allowed ↦ elim (Bool-cases (is_skipped_draft enq payload inst repo pr)) [
              | inl draft ↦ rw (stays, active, allowed, draft) h
              | inr ready ↦
                  rw (stays, active, allowed, ready)
                    (enqueue_for-KeyedDb (match_reviewer enq.logins pr.assignees []) db h)
            ]
          ]
    ]
  ]

  -- A row for the head of the event's pull request, with the event, that one of the workers was handed
  -- out and kept.
  pub record Served (now lease : ℕ) (workers : List Text) (final : Db) (after : Jobs) : Type 0 where
    pub row : ReviewJob
    pub installation : row.installation_id ≡ inst.id
    pub repository : row.repo_full_name ≡ repo
    pub number : row.pr_number ≡ pr.number
    pub head : row.head_sha ≡ pr.head_sha
    pub event : row.context_blob ≡ some (enq.marshal payload)
    pub stored : get_job row.id final.jobs ≡ some row
    pub handed_out : HandedOut now lease workers row.id row after

  -- The job keeps the event's columns where it is stored.
  stored-Served :
      {account : Option GitHubAccount} {login : Text} {job row : ReviewJob} (final : Db)
      → IsJobFor enq payload inst repo pr login account job
      → IsStored job row final.jobs
      → IsKeyed final.jobs
      → (locked : ReviewJob → Bool) (now lease : ℕ) (workers : List Text)
      → ((j : ReviewJob) → j.head_sha ≡ pr.head_sha → locked j ≡ false)
      → All (CanCount now locked) final.jobs
      → rows_where (available now locked) final.jobs ≤ length workers
      → Served now lease workers final (claim_each locked now lease workers final.jobs)
  stored-Served {row = row} final f s keyed locked now lease workers free fit enough =
      let e = s.stands_for in
      let head : row.head_sha ≡ pr.head_sha = ap (λ (j : ReviewJob). j.head_sha) e ∙ f.head in
      record {
        row = row;
        installation = ap (λ (j : ReviewJob). j.installation_id) e ∙ f.installation;
        repository = ap (λ (j : ReviewJob). j.repo_full_name) e ∙ f.repository;
        number = ap (λ (j : ReviewJob). j.pr_number) e ∙ f.number;
        head = head;
        event = ap (λ (j : ReviewJob). j.context_blob) e ∙ f.event;
        stored = s.found;
        handed_out =
            waiting-HandedOut locked now lease workers row.id row final.jobs keyed fit s.found
              (inl (ap (λ (j : ReviewJob). j.status) e ∙ f.waits)) (free row head) enough;
      }

  -- Where the keys of the jobs are unique and their counters have room, a job that an event of a pull
  -- request enqueues is handed out, at whatever time, to one of the workers that poll then, if they are as
  -- many as the jobs that wait and no other transaction locks a job for that head; the job is the one for
  -- the event's installation, repository, pull request and head, has the event, and is held by that worker
  -- once all have polled.
  pub enqueued-Served :
      (db : Db) {final : Db} (locked : ReviewJob → Bool) (now lease : ℕ) (workers : List Text)
      → KeyedDb db
      → handle_pr enq payload inst repo pr db ≡ ((enqueued, none), final)
      → ((j : ReviewJob) → j.head_sha ≡ pr.head_sha → locked j ≡ false)
      → All (CanCount now locked) final.jobs
      → rows_where (available now locked) final.jobs ≤ length workers
      → Served now lease workers final (claim_each locked now lease workers final.jobs)
  enqueued-Served db {final} locked now lease workers keyed h free fit enough =
      let passed = handle_pr-Passed enq payload inst repo pr db h in
      let keyed' : KeyedDb final = subst KeyedDb (ap (λ r. r.1) h) (handle_pr-KeyedDb db keyed) in
      stored-Served final passed.is_job passed.stored keyed' locked now lease workers free fit
        enough
