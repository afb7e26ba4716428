-- ===== src/Store/Publications.antt =====
-- internal/store/postgres/store.go, the statements on `review_publications`.
use agent_frei_igi.Prelude.{
  ℕ, Option, none, some, List, [], ◌∷◌, ◌++◌, Bool, true, false, publication_exists, Result, ok,
  err, ◌==◌, if◌then◌else◌, refl, ◌≡◌, ◌∙◌, arith, Bool-cases, inl, inr,
}
use agent_frei_igi.Domain.{
  ReviewPublication, PublisherKind, pending_github, published, failed_publication,
}
use agent_frei_igi.Store.Rows.{update_where, any_row, first_row, any_row-update}

abbrev pub Publications : Type 0
Publications = List ReviewPublication

abbrev pub of_job : ℕ → ReviewPublication → Bool
of_job job p = p.job_id == job

-- GetPublication
unfoldable pub get_publication : ℕ → Publications → Option ReviewPublication
get_publication job = first_row (of_job job)

-- BeginPublication; job_id is UNIQUE
unfoldable pub begin_publication :
    ℕ → ℕ → ℕ → Option ℕ → PublisherKind → Publications → Result ReviewPublication × Publications
begin_publication fresh now job account kind pubs =
    let row : ReviewPublication = record {
      id = fresh;
      job_id = job;
      publisher_account_id = account;
      publisher_kind = kind;
      state = pending_github;
      github_review_id = none;
      published_at = none;
      created_at = now;
      updated_at = now;
    } in
    if any_row (of_job job) pubs then (err publication_exists, pubs) else (ok row, pubs ++ row ∷ [])

abbrev pub publish_row : ℕ → Option ℕ → ReviewPublication → ReviewPublication
publish_row now review p = record p {
  state = published;
  github_review_id = review;
  published_at = some now;
  updated_at = now;
}

-- FinalizePublication: a dry run stores no review id.
unfoldable pub finalize_publication : ℕ → ℕ → Option ℕ → Bool → Publications → Publications
finalize_publication now job review dry_run pubs =
    if dry_run
    then update_where (of_job job) (publish_row now none) pubs
    else update_where (of_job job) (publish_row now review) pubs

abbrev pub fail_publication_row : ℕ → ReviewPublication → ReviewPublication
fail_publication_row now p = record p { state = failed_publication; updated_at = now }

-- FailPublication
unfoldable pub fail_publication : ℕ → ℕ → Publications → Publications
fail_publication now job = update_where (of_job job) (fail_publication_row now)

-- The statements as data, for what other processes run in between.
pub data PublicationCommand : Type 0 where
  begin : ℕ → ℕ → ℕ → Option ℕ → PublisherKind → PublicationCommand
  finalize : ℕ → ℕ → Option ℕ → Bool → PublicationCommand
  fail_it : ℕ → ℕ → PublicationCommand

unfoldable pub run_publication : PublicationCommand → Publications → Publications
run_publication (begin fresh now job account kind) pubs =
    (begin_publication fresh now job account kind pubs).1
run_publication (finalize now job review dry_run) pubs =
    finalize_publication now job review dry_run pubs
run_publication (fail_it now job) pubs = fail_publication now job pubs

unfoldable pub run_publications : List PublicationCommand → Publications → Publications
run_publications [] pubs = pubs
run_publications (c ∷ cs) pubs = run_publications cs (run_publication c pubs)

-- Whether the slot of a job is taken.
unfoldable pub reserved : ℕ → Publications → Bool
reserved job = any_row (of_job job)

pub reserved-update :
    (job : ℕ) (p : ReviewPublication → Bool) (f : ReviewPublication → ReviewPublication)
    (pubs : Publications)
    → ((a : ReviewPublication) → (f a).job_id ≡ a.job_id)
    → reserved job (update_where p f pubs) ≡ reserved job pubs
unfolding reserved
reserved-update job p f pubs same = any_row-update (of_job job) p f (λ a. rw (same a)) pubs

reserved-append :
    (job : ℕ) (pubs more : Publications)
    → reserved job pubs ≡ true
    → reserved job (pubs ++ more) ≡ true
unfolding reserved
reserved-append job [] more h = cc
reserved-append job (p ∷ pubs) more h = ground (arith, reserved-append job pubs more)

-- A reserved slot stays reserved.
pub run_publication-reserved :
    (job : ℕ) (c : PublicationCommand) (pubs : Publications)
    → reserved job pubs ≡ true
    → reserved job (run_publication c pubs) ≡ true
unfolding run_publication begin_publication finalize_publication fail_publication
run_publication-reserved job (begin fresh now other account kind) pubs h =
    elim (Bool-cases (any_row (of_job other) pubs)) [
      | inl taken ↦ rw (taken, run_publication) h
      | inr free ↦ rw (free, run_publication) (reserved-append job pubs _ h)
    ]
run_publication-reserved job (finalize now other review true) pubs h =
    reserved-update job (of_job other) (publish_row now none) pubs (λ a. refl) ∙ h
run_publication-reserved job (finalize now other review false) pubs h =
    reserved-update job (of_job other) (publish_row now review) pubs (λ a. refl) ∙ h
run_publication-reserved job (fail_it now other) pubs h =
    reserved-update job (of_job other) (fail_publication_row now) pubs (λ a. refl) ∙ h
