-- ===== src/Queue.antt =====
-- internal/queue/enqueue.go: what an event of GitHub makes of the job table. `(?i)` is taken on ASCII.
pub mod Reviewer
pub mod Events
pub mod Gate
pub mod Served
use agent_frei_igi.Prelude.{
  ℕ, Bool, true, false, ◌&&◌, ◌||◌, not, Text, bytes, text_eq, is_empty, to_lower, leb, ◌==◌,
  Option, none, some, List, [], ◌∷◌, Result, ok, err, Error, message, wrapped,
  is_job_already_exists, Action, if◌then◌else◌, is_some,
}
use agent_frei_igi.Domain.{Installation, GitHubAccount, ReviewJob, pending}
use agent_frei_igi.Store.Db
use agent_frei_igi.Store.Db.{Db}
use agent_frei_igi.Store.Publishing
use agent_frei_igi.Webhook.{InstallationPayload, PrPayload, IssuePayload, WebhookPayload}

-- [A-Za-z0-9_-]
unfoldable pub is_word : ℕ → Bool
is_word c =
    (leb 65 c && leb c 90)
    || (leb 97 c && leb c 122)
    || (leb 48 c && leb c 57)
    || (c == 95)
    || (c == 45)

-- The rest of a match after `@`: the login in lower case, then a boundary.
unfoldable pub ends_mention : Text → Text → Bool
unfolding is_word
ends_mention [] [] = true
ends_mention [] (c ∷ s) = not (is_word c)
ends_mention (l ∷ login) [] = false
ends_mention (l ∷ login) (c ∷ s) = (l == c) && ends_mention login s

-- A match of the pattern; `boundary` says that the text starts here or follows no word.
unfoldable pub mentions_from : Bool → Text → Text → Bool
unfolding is_word ends_mention
mentions_from boundary login [] = false
mentions_from boundary login (c ∷ s) =
    (boundary && (c == 64) && ends_mention login s) || mentions_from (not (is_word c)) login s

unfoldable pub is_mentioned : Text → Text → Bool
unfolding mentions_from
is_mentioned login body = mentions_from true (to_lower login) (to_lower body)

abbrev any_equal : Text → List Text → Bool
any_equal login [] = false
any_equal login (a ∷ assignees) = text_eq (to_lower a) (to_lower login) || any_equal login assignees

-- Whether a login of the list is asked for.
unfoldable pub is_asked : List Text → Text → Text → Bool
unfolding is_mentioned
is_asked assignees body login =
    any_equal login assignees || (not (is_empty body) && is_mentioned login body)

-- matchReviewer
unfoldable pub match_reviewer : List Text → List Text → Text → Option Text
unfolding is_asked
match_reviewer [] assignees body = none
match_reviewer (login ∷ logins) assignees body =
    if is_asked assignees body login then some login else match_reviewer logins assignees body

-- The decision strings
pub data Decision : Type 0 where
  ignored processed cancelled_open skipped skipped_suspended skipped_no_sha : Decision
  enqueued enqueued_noop failed : Decision

-- What a handler returns: a decision, and an error or nil.
abbrev pub Handled : Type 0
Handled = Decision × Option Error

abbrev pub Handler : Type 0
Handler = Db → Handled × Db

abbrev pub done : Decision → Handler
done d db = ((d, none), db)

abbrev pub refused : Text → Handler
refused m db = ((ignored, some (message m)), db)

module _ {A : Type 0} where
  abbrev pub or_failed : Text → (A → Handler) → Result A → Handler
  or_failed m k (ok a) db = k a db
  or_failed m k (err e) db = ((failed, some (wrapped m e)), db)

  -- A call of the store, whose error ends the handler.
  abbrev pub try : Text → Action Db A → (A → Handler) → Handler
  try m act k db = let (r, db') = act db in or_failed m k r db'

abbrev pub any_of : Text → List Text → Bool
any_of s [] = false
any_of s (t ∷ ts) = text_eq s t || any_of s ts

-- The installation that handleInstallationEvent writes; the database fills in the rest.
unfoldable pub installation_row : ℕ → Text → InstallationPayload → Installation
installation_row now action p = record {
  id = 0;
  github_installation_id = p.id;
  account_login = p.account_login;
  account_type = p.account_type;
  suspended_at = if any_of action (bytes "suspend" ∷ bytes "deleted" ∷ []) then some now else none;
  created_at = 0;
  updated_at = 0;
}

abbrev upsert : Text → InstallationPayload → Handler
upsert action p db =
    try (bytes "failed to upsert installation")
      (Db.upsert_installation (installation_row db.now action p)) (λ _. done processed) db

-- handleInstallationEvent
unfoldable pub handle_installation : WebhookPayload → Handler
unfolding installation_row
handle_installation payload = go payload.installation
  where
    go : Option InstallationPayload → Handler
    go none = refused (bytes "installation payload missing in installation event")
    go (some p) = upsert payload.action p

-- The stub of ensureInstallation
unfoldable pub stub_installation : InstallationPayload → Installation
stub_installation p = record {
  id = 0;
  github_installation_id = p.id;
  account_login = if is_empty p.account_login then bytes "unknown-stub" else p.account_login;
  account_type = if is_empty p.account_login then bytes "Organization" else p.account_type;
  suspended_at = none;
  created_at = 0;
  updated_at = 0;
}

abbrev pub found_or_stub :
    InstallationPayload → Result (Option Installation) → Action Db Installation
found_or_stub p (err e) db = (err e, db)
found_or_stub p (ok (some inst)) db = (ok inst, db)
found_or_stub p (ok none) db = Db.upsert_installation (stub_installation p) db

-- ensureInstallation
unfoldable pub ensure_installation : InstallationPayload → Action Db Installation
ensure_installation p db =
    let (r, db') = Db.get_installation_by_github_id p.id db in found_or_stub p r db'

-- NewEnqueuer, with json.Marshal of a payload
pub record Enqueuer : Type 0 where
  pub logins : List Text
  pub marshal : WebhookPayload → Text

-- The job of step 7; the database fills in the rest.
unfoldable pub new_job : Text → ℕ → Text → PrPayload → Option GitHubAccount → Text → ReviewJob
new_job blob inst repo pr account login = record {
  id = 0;
  installation_id = inst;
  repo_full_name = repo;
  pr_number = pr.number;
  head_sha = pr.head_sha;
  base_sha = pr.base_sha;
  publisher_account_id = account_id account;
  publisher_login = some login;
  status = pending;
  lock_generation = 0;
  locked_until = none;
  locked_by = none;
  attempt = 0;
  last_error = none;
  context_blob = some blob;
  result_blob = none;
  prompt_version = none;
  created_at = 0;
  updated_at = 0;
}
  where
    account_id : Option GitHubAccount → Option ℕ
    account_id none = none
    account_id (some a) = some a.id

abbrev pub created : Result ReviewJob → Handler
created (ok row) db = ((enqueued, none), db)
created (err e) db =
    if is_job_already_exists e
    then ((enqueued_noop, none), db)
    else ((failed, some (wrapped (bytes "failed to queue job") e)), db)

module _ (enq : Enqueuer) (payload : WebhookPayload) (inst : Installation) (repo : Text)
    (pr : PrPayload) where
  abbrev pub create : Text → Option GitHubAccount → Handler
  create login account db =
      let (r, db') =
        Db.create_job (new_job (enq.marshal payload) inst.id repo pr account login) db in
      created r db'

  -- Steps 5 to 7, for the reviewer that was chosen.
  unfoldable pub enqueue : Text → Handler
  enqueue login =
      try (bytes "failed to supersede older jobs")
        (Db.cancel_jobs_for_pr inst.id repo pr.number pr.head_sha)
        λ _.
          try (bytes "failed to query reviewer account") (Publishing.get_account_by_login login)
            (create login)

  abbrev pub enqueue_for : Option Text → Handler
  enqueue_for none = done skipped
  enqueue_for (some login) = enqueue login

  unfoldable pub is_closing : Bool
  is_closing =
      text_eq payload.action (bytes "closed")
      || text_eq pr.state (bytes "closed")
      || text_eq payload.action (bytes "converted_to_draft")

  abbrev pub allowed_actions : List Text
  allowed_actions =
      bytes "opened"
      ∷ bytes "reopened"
      ∷ bytes "synchronize"
      ∷ bytes "ready_for_review"
      ∷ bytes "assigned"
      ∷ []

  abbrev pub is_skipped_draft : Bool
  is_skipped_draft = pr.draft && not (text_eq payload.action (bytes "ready_for_review"))

  abbrev pub close_jobs : Handler
  close_jobs =
      try (bytes "failed to cancel open jobs") (Db.cancel_open_jobs_for_pr inst.id repo pr.number)
        (λ _. done cancelled_open)

  -- Steps 2 to 7 of handlePullRequestEvent
  unfoldable pub handle_pr : Handler
  handle_pr =
      if is_closing
      then close_jobs
      else if is_some inst.suspended_at
      then done skipped_suspended
      else if not (any_of payload.action allowed_actions)
      then done ignored
      else if is_skipped_draft
      then done skipped
      else enqueue_for (match_reviewer enq.logins pr.assignees [])
