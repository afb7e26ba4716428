-- ===== src/Diplomat/Publish/Parts.antt =====
-- The parts of Publish before the review is sent, and after it.
use agent_frei_igi.Prelude.{
  ℕ, refl, ◌∙◌, Bool, true, false, Text, bytes, is_empty, Option, none, some, Result, ok, err,
  Error, error_text, Action, if◌then◌else◌, is_publication_exists, wrapped,
}
use agent_frei_igi.Domain.{Installation, ReviewJob, ReviewPublication, user}
use agent_frei_igi.Store.Db
use agent_frei_igi.Store.Publishing
use agent_frei_igi.GithubApp.{get_installation_token}
use agent_frei_igi.World.{World, on_db, on_github}
use agent_frei_igi.Diplomat.Publish.{
  PublisherConfig, UserToken, publish_dry, dry_existing, dry_begun, look_up, find_account,
  account_or_none, token_of_account, user_token, present, fall_back, resolve, text_of, taken,
  dry_taken, account_of, existing, created,
}
use agent_frei_igi.Diplomat.Publish.Quiet.{
  Quiet, pure-Quiet, fail-Quiet, wrapping-Quiet, bind-Quiet,
}
use agent_frei_igi.Diplomat.Publish.Steps.{
  begin-Quiet, get_publication-Quiet, get_account-Quiet, get_installation-Quiet,
  fail_publication-Quiet, finalize-Quiet, get_token-Quiet,
}

-- What follows an action in a state of its own, without sending a review.
pub after-Quiet :
    (job : ℕ) {A B : Type 0} (m : Action World A) (f : Result A → Action World B)
    → Quiet job m
    → ((r : Result A) → Quiet job (f r))
    → Quiet job (λ w. f (m w).0 (m w).1)
after-Quiet job m f qm qf = record {
  at = λ w.
      let (same, kept) = qm.at w in
      let (same', kept') = (qf (m w).0).at (m w).1 in (same' ∙ same, λ h. kept' (kept h));
}

pub if-Quiet :
    (job : ℕ) {A : Type 0} (b : Bool) (m n : Action World A)
    → Quiet job m
    → Quiet job n
    → Quiet job (if b then m else n)
if-Quiet job true m n qm qn = qm
if-Quiet job false m n qm qn = qn

pub reply-Quiet : (job : ℕ) {A : Type 0} (r : Result A) → Quiet job (λ (w : World). (r, w))
reply-Quiet job r = record { at = λ w. (refl, λ h. h) }

module _ (job : ReviewJob) where
  pub existing-Quiet : (e : Error) → Quiet job.id (existing job e)
  unfolding existing
  existing-Quiet e =
      after-Quiet job.id (on_db (Publishing.get_publication job.id)) (λ r w. (taken e r, w))
        (get_publication-Quiet job.id) (λ r. reply-Quiet job.id (taken e r))

  pub dry_existing-Quiet : (e : Error) → Quiet job.id (dry_existing job e)
  unfolding dry_existing
  dry_existing-Quiet e =
      after-Quiet job.id (on_db (Publishing.get_publication job.id)) (λ r w. (dry_taken e r, w))
        (get_publication-Quiet job.id) (λ r. reply-Quiet job.id (dry_taken e r))

  pub dry_begun-Quiet : (r : Result ReviewPublication) → Quiet job.id (dry_begun job r)
  dry_begun-Quiet (ok row) =
      wrapping-Quiet job.id _ (on_db (Publishing.finalize_publication job.id none true))
        (finalize-Quiet job.id none true)
  dry_begun-Quiet (err e) =
      if-Quiet job.id (is_publication_exists e) _ _ (dry_existing-Quiet e) (fail-Quiet job.id _)

  pub publish_dry-Quiet : Quiet job.id (publish_dry job)
  unfolding publish_dry
  publish_dry-Quiet =
      after-Quiet job.id (on_db (Publishing.begin_publication job.id none user)) (dry_begun job)
        (begin-Quiet job.id none user) dry_begun-Quiet

  pub find_account-Quiet : (login : Text) → Quiet job.id (find_account login)
  unfolding find_account
  find_account-Quiet login =
      after-Quiet job.id (on_db (Publishing.get_account_by_login login))
        (λ r w. (ok (account_or_none r), w)) (get_account-Quiet job.id login)
        (λ r. reply-Quiet job.id (ok (account_or_none r)))

  pub look_up-Quiet : (login : Option Text) → Quiet job.id (look_up login)
  look_up-Quiet none = pure-Quiet job.id none
  look_up-Quiet (some login) =
      if-Quiet job.id (is_empty login) _ _ (pure-Quiet job.id none) (find_account-Quiet login)

  pub user_token-Quiet : (cfg : PublisherConfig) → Quiet job.id (user_token cfg job)
  unfolding user_token
  user_token-Quiet cfg =
      bind-Quiet job.id (look_up job.publisher_login) _ (look_up-Quiet job.publisher_login)
        (λ account. reply-Quiet job.id (token_of_account cfg account))

  pub present-Quiet : (row : Option Installation) → Quiet job.id (present row)
  present-Quiet none = fail-Quiet job.id _
  present-Quiet (some inst) = pure-Quiet job.id inst

  fall_back-Quiet : (account : Option ℕ) → Quiet job.id (fall_back account job)
  unfolding fall_back
  fall_back-Quiet account =
      bind-Quiet job.id _ _
        (wrapping-Quiet job.id _ (on_db (Db.get_installation job.installation_id))
          (get_installation-Quiet job.id job.installation_id))
        (λ row. bind-Quiet job.id (present row) _ (present-Quiet row) (λ inst.
          bind-Quiet job.id _ _
            (wrapping-Quiet job.id _
              (on_github (get_installation_token inst.github_installation_id))
              (get_token-Quiet job.id inst.github_installation_id))
            (λ token. pure-Quiet job.id _)))

  pub resolve-Quiet : (cfg : PublisherConfig) (t : UserToken) → Quiet job.id (resolve cfg job t)
  unfolding resolve
  resolve-Quiet cfg t =
      if-Quiet job.id (is_empty (text_of t)) _ _
        (if-Quiet job.id cfg.app_bot_fallback _ _ (fall_back-Quiet (account_of t))
          (fail-Quiet job.id _))
        (pure-Quiet job.id _)

  pub created-Quiet : (r : Result ℕ) → Quiet job.id (created job r)
  created-Quiet (ok review) =
      wrapping-Quiet job.id _ (on_db (Publishing.finalize_publication job.id (some review) false))
        (finalize-Quiet job.id (some review) false)
  created-Quiet (err e) =
      after-Quiet job.id (on_db (Publishing.fail_publication job.id (error_text e)))
        (λ r w. (err (wrapped (bytes "failed to create PR review on GitHub") e), w))
        (fail_publication-Quiet job.id (error_text e))
        (λ r. reply-Quiet job.id (err (wrapped (bytes "failed to create PR review on GitHub") e)))
