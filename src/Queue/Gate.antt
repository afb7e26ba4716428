-- ===== src/Queue/Gate.antt =====
-- What a decision of handlePullRequestEvent (internal/queue/enqueue.go) says of the event and the jobs.
use agent_frei_igi.Prelude.{
  ℕ, ◌≡◌, refl, true, false, Text, Option, none, some, [], All, All-map, Result, ok, err,
  Bool-cases, inl, inr, is_some, is_job_already_exists, ap, bytes, ◌≢◌, ◌⊎◌, wrap, List, ◌∷◌,
  text_eq, text_eq_refl, eq_of_text_eq, subst, arith,
}
use agent_frei_igi.Domain.{Installation, GitHubAccount, ReviewJob, pending}
use agent_frei_igi.Webhook.{PrPayload, WebhookPayload}
use agent_frei_igi.Store.Jobs.{open_for_pr}
use agent_frei_igi.Store.Jobs.Columns.{IsOpenFor, open_for_pr-IsOpenFor}
use agent_frei_igi.Store.Jobs.Cancel.{cancel_open-All}
use agent_frei_igi.Store.Db
use agent_frei_igi.Store.Db.{Db}
use agent_frei_igi.Store.Db.Rules.{query_rule}
use agent_frei_igi.Store.Db.Keyed.{IsStored, create_job-IsStored}
use agent_frei_igi.Store.Publishing
use agent_frei_igi.Queue.{
  Enqueuer, Handler, done, or_failed, try, created, new_job, create, enqueue, enqueue_for,
  is_closing, any_of, allowed_actions, is_skipped_draft, close_jobs, handle_pr, match_reviewer,
  enqueued, cancelled_open,
}
use agent_frei_igi.Queue.Reviewer.{FirstAsked, match_reviewer-FirstAsked}

module _ {A : Type 0} where
  or_failed-enqueued :
      (m : Text) (k : A → Handler) (r : Result A) (db : Db) {final : Db}
      → or_failed m k r db ≡ ((enqueued, none), final)
      → (a : A) × (r ≡ ok a) × (k a db ≡ ((enqueued, none), final))
  or_failed-enqueued m k (ok a) db h = (a, refl, h)
  or_failed-enqueued m k (err e) db h = cc

  or_failed-cancelled :
      (m : Text) (r : Result A) (db : Db) {final : Db}
      → or_failed m (λ _. done cancelled_open) r db ≡ ((cancelled_open, none), final)
      → (a : A) × (r ≡ ok a) × (db ≡ final)
  or_failed-cancelled m (ok a) db h = (a, refl, ap (λ p. p.1) h)
  or_failed-cancelled m (err e) db h = cc

created-ok :
    (r : Result ReviewJob) (db : Db) {final : Db}
    → created r db ≡ ((enqueued, none), final)
    → (row : ReviewJob) × (r ≡ ok row) × (db ≡ final)
created-ok (ok row) db h = (row, refl, ap (λ p. p.1) h)
created-ok (err e) db h = elim (Bool-cases (is_job_already_exists e)) [
  | inl same ↦ absurd (cc (rw same at h))
  | inr other ↦ absurd (cc (rw other at h))
]

-- The id of the account, where there is one.
abbrev pub IsIdOf : Option GitHubAccount → Option ℕ → Type 0
IsIdOf none id = id ≡ none
IsIdOf (some a) id = id ≡ some a.id

abbrev pub IsOneOf : Text → List Text → Type 0
IsOneOf s [] = ⊥
IsOneOf s (t ∷ ts) = (s ≡ t) ⊎ IsOneOf s ts

any_of-IsOneOf : (s : Text) (ts : List Text) → any_of s ts ≡ true → IsOneOf s ts
any_of-IsOneOf s [] h = cc
any_of-IsOneOf s (t ∷ ts) h = elim (Bool-cases (text_eq s t)) [
  | inl same ↦ inl (eq_of_text_eq s t same)
  | inr other ↦ inr (any_of-IsOneOf s ts (rw other at h))
]

text_eq-differs : (s t : Text) → text_eq s t ≡ false → s ≢ t
text_eq-differs s t h e = cc (rw (e, text_eq_refl t) at h)

module _ (enq : Enqueuer) (payload : WebhookPayload) (inst : Installation) (repo : Text)
    (pr : PrPayload) where
  -- The job of an event for a reviewer, with the reviewer's account if there is one.
  pub record IsJobFor (login : Text) (account : Option GitHubAccount) (j : ReviewJob) : Type 0 where
    pub installation : j.installation_id ≡ inst.id
    pub repository : j.repo_full_name ≡ repo
    pub number : j.pr_number ≡ pr.number
    pub head : j.head_sha ≡ pr.head_sha
    pub base : j.base_sha ≡ pr.base_sha
    pub publisher : j.publisher_login ≡ some login
    pub publisher_account : IsIdOf account j.publisher_account_id
    pub waits : j.status ≡ pending
    pub first_generation : j.lock_generation ≡ 0
    pub no_attempt : j.attempt ≡ 0
    pub event : j.context_blob ≡ some (enq.marshal payload)

  new_job-IsJobFor :
      (login : Text) (account : Option GitHubAccount)
      → IsJobFor login account (new_job (enq.marshal payload) inst.id repo pr account login)
  unfolding new_job
  new_job-IsJobFor login account = record {
    installation = refl;
    repository = refl;
    number = refl;
    head = refl;
    base = refl;
    publisher = refl;
    publisher_account = by_account account;
    waits = refl;
    first_generation = refl;
    no_attempt = refl;
    event = refl;
  }
    where
      by_account :
          (a : Option GitHubAccount)
          → IsIdOf a (new_job (enq.marshal payload) inst.id repo pr a login).publisher_account_id
      by_account none = refl
      by_account (some a) = refl

  -- An event passed every test, and its job was created as the last statement.
  pub record Passed (final : Db) : Type 0 where
    pub not_closed : payload.action ≢ bytes "closed"
    pub pr_not_closed : pr.state ≢ bytes "closed"
    pub not_converted : payload.action ≢ bytes "converted_to_draft"
    pub not_suspended : inst.suspended_at ≡ none
    pub allowed : IsOneOf payload.action (
        bytes "opened"
        ∷ bytes "reopened"
        ∷ bytes "synchronize"
        ∷ bytes "ready_for_review"
        ∷ bytes "assigned"
        ∷ [])
    pub reviewable : (pr.draft ≡ false) ⊎ (payload.action ≡ bytes "ready_for_review")
    pub login : Text
    pub chosen : FirstAsked enq.logins pr.assignees [] login
    pub queried : Db
    pub before : Db
    pub account : Option GitHubAccount
    pub account_read : Publishing.get_account_by_login login queried ≡ (ok account, before)
    pub job : ReviewJob
    pub row : ReviewJob
    pub is_job : IsJobFor login account job
    pub inserted : Db.create_job job before ≡ (ok row, final)
    pub stored : IsStored job row final.jobs

  -- What the last three steps did.
  record Created (login : Text) (final : Db) : Type 0 where
    queried : Db
    before : Db
    account : Option GitHubAccount
    account_read : Publishing.get_account_by_login login queried ≡ (ok account, before)
    row : ReviewJob
    inserted :
        Db.create_job (new_job (enq.marshal payload) inst.id repo pr account login) before
        ≡ (ok row, final)

  enqueue-Created :
      (login : Text) (db : Db) {final : Db}
      → enqueue enq payload inst repo pr login db ≡ ((enqueued, none), final)
      → Created login final
  unfolding enqueue
  enqueue-Created login db h =
      let c = Db.cancel_jobs_for_pr inst.id repo pr.number pr.head_sha db in
      let (n, superseded, h₁) =
        or_failed-enqueued (bytes "failed to supersede older jobs")
          (λ _.
            try (bytes "failed to query reviewer account") (Publishing.get_account_by_login login)
              (create enq payload inst repo pr login))
          c.0 c.1 h in
      let g = Publishing.get_account_by_login login c.1 in
      let (account, read, h₂) =
        or_failed-enqueued (bytes "failed to query reviewer account")
          (create enq payload inst repo pr login) g.0 g.1 h₁ in
      let job = new_job (enq.marshal payload) inst.id repo pr account login in
      let (row, inserted, last) =
        created-ok (Db.create_job job g.1).0 (Db.create_job job g.1).1 h₂ in
      record {
        queried = c.1;
        before = g.1;
        account = account;
        account_read = ap (λ r. (r, g.1)) read;
        row = row;
        inserted = cc (inserted, last);
      }

  enqueue_for-Created :
      (reviewer : Option Text) (db : Db) {final : Db}
      → enqueue_for enq payload inst repo pr reviewer db ≡ ((enqueued, none), final)
      → (login : Text) × (reviewer ≡ some login) × Created login final
  enqueue_for-Created none db h = absurd (cc h)
  enqueue_for-Created (some login) db h = (login, refl, enqueue-Created login db h)

  close_jobs-not_enqueued :
      (db : Db) {final : Db} → close_jobs enq payload inst repo pr db ≢ ((enqueued, none), final)
  close_jobs-not_enqueued db h =
      let c = Db.cancel_open_jobs_for_pr inst.id repo pr.number db in
      let (n, closed, h₁) =
        or_failed-enqueued (bytes "failed to cancel open jobs") (λ _. done cancelled_open) c.0 c.1
          h in
      cc h₁

  is_closing-false :
      is_closing enq payload inst repo pr ≡ false
      → (payload.action ≢ bytes "closed")
        × (pr.state ≢ bytes "closed")
        × (payload.action ≢ bytes "converted_to_draft")
  unfolding is_closing
  is_closing-false h =
      let a : text_eq payload.action (bytes "closed") ≡ false = ground arith in
      let b : text_eq pr.state (bytes "closed") ≡ false = ground arith in
      let c : text_eq payload.action (bytes "converted_to_draft") ≡ false = ground arith in
      (text_eq-differs _ _ a, text_eq-differs _ _ b, text_eq-differs _ _ c)

  is_some-false : {A : Type 0} (o : Option A) → is_some o ≡ false → o ≡ none
  is_some-false none h = refl
  is_some-false (some a) h = cc

  not_skipped :
      is_skipped_draft enq payload inst repo pr ≡ false
      → (pr.draft ≡ false) ⊎ (payload.action ≡ bytes "ready_for_review")
  not_skipped h = elim (Bool-cases pr.draft) [
    | inr open_for_review ↦ inl open_for_review
    | inl draft ↦ elim (Bool-cases (text_eq payload.action (bytes "ready_for_review"))) [
      | inl ready ↦ inr (eq_of_text_eq _ _ ready)
      | inr other ↦ absurd (cc (rw (draft, other) at h))
    ]
  ]

  -- An event of a pull request enqueues a job only if neither the event nor the pull request says closed,
  -- the event does not make it a draft, the installation is not suspended, the action is one of the five,
  -- and the pull request is no draft unless it became ready; the last statement stores a pending job, of
  -- generation 0, for the event's installation, repository, pull request, head and base, with the event and
  -- the first configured reviewer that is assigned, and the id of the account that was read for that login.
  pub handle_pr-Passed :
      (db : Db) {final : Db}
      → handle_pr enq payload inst repo pr db ≡ ((enqueued, none), final)
      → Passed final
  unfolding handle_pr
  handle_pr-Passed db h = elim (Bool-cases (is_closing enq payload inst repo pr)) [
    | inl closing ↦ absurd (close_jobs-not_enqueued db (rw closing at h))
    | inr stays ↦ elim (Bool-cases (is_some inst.suspended_at)) [
      | inl suspended ↦ absurd (cc (rw (stays, suspended) at h))
      | inr active ↦
          elim (Bool-cases (any_of payload.action (allowed_actions enq payload inst repo pr))) [
            | inr other ↦ absurd (cc (rw (stays, active, other) at h))
            | inl allowed ↦ elim (Bool-cases (is_skipped_draft enq payload inst repo pr)) [
              | inl draft ↦ absurd (cc (rw (stays, active, allowed, draft) at h))
              | inr ready ↦
                  let (login, chosen, c) =
                    enqueue_for-Created (match_reviewer enq.logins pr.assignees []) db
                      (rw (stays, active, allowed, ready) at h) in
                  let job = new_job (enq.marshal payload) inst.id repo pr c.account login in
                  let (not_closed, pr_not_closed, not_converted) = is_closing-false stays in
                  record {
                    not_closed = not_closed;
                    pr_not_closed = pr_not_closed;
                    not_converted = not_converted;
                    not_suspended = is_some-false inst.suspended_at active;
                    allowed =
                        any_of-IsOneOf payload.action (allowed_actions enq payload inst repo pr)
                          allowed;
                    reviewable = not_skipped ready;
                    login = login;
                    chosen = match_reviewer-FirstAsked enq.logins pr.assignees [] chosen;
                    queried = c.queried;
                    before = c.before;
                    account = c.account;
                    account_read = c.account_read;
                    job = job;
                    row = c.row;
                    is_job = new_job-IsJobFor login c.account;
                    inserted = c.inserted;
                    stored =
                        subst (λ (p : Result ReviewJob × Db). IsStored job c.row p.1.jobs)
                          c.inserted (create_job-IsStored job c.before (ap (λ p. p.0) c.inserted));
                  }
            ]
          ]
    ]
  ]

  cancel_leaves_none :
      (db : Db) {n : ℕ}
      → (Db.cancel_open_jobs_for_pr inst.id repo pr.number db).0 ≡ ok n
      → All
          (λ j. open_for_pr inst.id repo pr.number j ≡ false)
          (Db.cancel_open_jobs_for_pr inst.id repo pr.number db).1.jobs
  unfolding Db.cancel_open_jobs_for_pr
  cancel_leaves_none db {n} =
      query_rule (λ d. Unit {0})
        (λ r.
          wrap (bytes "failed to cancel open jobs") r.0 ≡ ok n
          → All (λ j. open_for_pr inst.id repo pr.number j ≡ false) r.1.jobs)
        _ (λ m ms d p. tt) (λ d p h. cancel_open-All d.now inst.id repo pr.number d.jobs)
        (λ d e p h. absurd (cc h)) (λ d e p h. absurd (cc h)) db tt

  -- The event closes the pull request, or makes it a draft.
  abbrev pub Closes : Type 0
  Closes =
      (payload.action ≡ bytes "closed")
      ⊎ ((pr.state ≡ bytes "closed") ⊎ (payload.action ≡ bytes "converted_to_draft"))

  Closes-is_closing : Closes → is_closing enq payload inst repo pr ≡ true
  unfolding is_closing
  Closes-is_closing (inl e) =
      let said : text_eq payload.action (bytes "closed") ≡ true = rw e (text_eq_refl _) in
      ground arith
  Closes-is_closing (inr (inl e)) =
      let said : text_eq pr.state (bytes "closed") ≡ true = rw e (text_eq_refl _) in ground arith
  Closes-is_closing (inr (inr e)) =
      let said : text_eq payload.action (bytes "converted_to_draft") ≡ true =
        rw e (text_eq_refl _) in
      ground arith

  -- An event that closes the pull request, or makes it a draft, and is answered as cancelled leaves no job
  -- of this installation, repository and pull request pending, running or waiting for a retry.
  pub handle_pr-closed :
      (db : Db) {final : Db}
      → Closes
      → handle_pr enq payload inst repo pr db ≡ ((cancelled_open, none), final)
      → All (λ j. IsOpenFor inst.id repo pr.number j → ⊥) final.jobs
  unfolding handle_pr
  handle_pr-closed db closes h =
      let closing = Closes-is_closing closes in
      let c = Db.cancel_open_jobs_for_pr inst.id repo pr.number db in
      let (n, e, last) =
        or_failed-cancelled (bytes "failed to cancel open jobs") c.0 c.1 (rw closing at h) in
      let none_left = cancel_leaves_none db e in
      rw (← last) (
        All-map c.1.jobs
          (λ j none o. cc (none, (open_for_pr-IsOpenFor inst.id repo pr.number j).1 o)) none_left)
