-- ===== src/Diplomat/Publish/Once.antt =====
-- Publish (internal/diplomat/publish.go): the reviews sent by one attempt, and by many.
use agent_frei_igi.Prelude.{
  ℕ, suc, ◌+◌, ◌≤◌, ◌<◌, ◌≡◌, ◌∙◌, inl, inr, Text, bytes, Option, none, some, length, arith, Result,
  ok, err, Action, fail, continue, ◌>>=◌, Bool-cases, is_publication_exists, take,
}
use agent_frei_igi.Domain.{ReviewJob, ReviewPublication}
use agent_frei_igi.Store.Db.Rules.{IsReserved}
use agent_frei_igi.Store.Publishing
use agent_frei_igi.GithubApp.{Client, create_pull_review, ReviewRequest}
use agent_frei_igi.Critic.{ReviewResult}
use agent_frei_igi.World.{World}
use agent_frei_igi.Detective.Build.{owner_and_repo}
use agent_frei_igi.Diplomat.Map.{map_result_to_request}
use agent_frei_igi.Diplomat.Publish.{
  PublisherConfig, Credentials, publish, publish_dry, user_token, resolve, post_review, begun,
  reserve_and_post,
}
use agent_frei_igi.Diplomat.Publish.Quiet.{posts, Quiet, fail-Quiet}
use agent_frei_igi.Diplomat.Publish.Grant.{Granted, Refused, begin-Granted, begin-Refused}
use agent_frei_igi.Diplomat.Publish.Steps.{begin-Quiet, fail_publication-Quiet}
use agent_frei_igi.Diplomat.Publish.Parts.{
  existing-Quiet, user_token-Quiet, resolve-Quiet, publish_dry-Quiet, created-Quiet, if-Quiet,
}

-- What an attempt does to the reviews sent and to the slot of its job.
pub record Fenced (job : ℕ) (w w' : World) : Type 0 where
  pub one_at_most : posts w' ≤ posts w + 1
  pub none_if_reserved : IsReserved job w.db → posts w' ≡ posts w
  pub stays_reserved : IsReserved job w.db → IsReserved job w'.db
  pub reserved_if_sent : posts w < posts w' → IsReserved job w'.db

pub Quiet-Fenced :
    (job : ℕ) {A : Type 0} (act : Action World A)
    → Quiet job act
    → (w : World) → Fenced job w (act w).1
Quiet-Fenced job act q w = record {
  one_at_most = omega (arith, (q.at w).0);
  none_if_reserved = λ h. (q.at w).0;
  stays_reserved = (q.at w).1;
  reserved_if_sent = λ lt. absurd (omega (arith, (q.at w).0));
}

create_posts :
    (token owner repo : Text) (pr : ℕ) (req : ReviewRequest) (c : Client)
    → length (create_pull_review token owner repo pr req c).1.posts ≡ suc (length c.posts)
unfolding create_pull_review
create_posts token owner repo pr req c = ground arith

module _ (cfg : PublisherConfig) (job : ReviewJob) (result : ReviewResult)
    (cred : Credentials) where
  -- With the slot taken, one review is sent, or none if the repository has no owner.
  pub post_review-sends :
      (name : Option (Text × Text)) (w : World)
      → IsReserved job.id w.db
      → (posts (post_review cfg job result cred name w).1 ≤ posts w + 1)
        × IsReserved job.id (post_review cfg job result cred name w).1.db
  post_review-sends none w h = (
    omega arith,
    ((fail_publication-Quiet job.id (bytes "invalid repository name format")).at w).1 h,
  )
  post_review-sends (some (owner, repo)) w h =
      let req =
        map_result_to_request result job.head_sha cfg.review_signature
          (take 8 (cfg.job_name job.id)) in
      let sent = create_pull_review cred.token owner repo job.pr_number req w.github in
      let q = (created-Quiet job sent.0).at (record w { github = sent.1 }) in
      (omega (arith, q.0, create_posts cred.token owner repo job.pr_number req w.github), q.1 h)

-- An attempt after an action that sent nothing.
pub before-Fenced :
    (job : ℕ) (w w₁ w₂ : World)
    → posts w₁ ≡ posts w
    → (IsReserved job w.db → IsReserved job w₁.db)
    → Fenced job w₁ w₂
    → Fenced job w w₂
before-Fenced job w w₁ w₂ same kept f = record {
  one_at_most = omega (arith, f.one_at_most);
  none_if_reserved = λ h. f.none_if_reserved (kept h) ∙ same;
  stays_reserved = λ h. f.stays_reserved (kept h);
  reserved_if_sent = λ lt. f.reserved_if_sent (omega arith);
}

pub bind-Fenced :
    (job : ℕ) {A B : Type 0} (m : Action World A) (f : A → Action World B)
    → Quiet job m
    → ((a : A) (w : World) → Fenced job w (f a w).1)
    → (w : World) → Fenced job w ((m >>= f) w).1
bind-Fenced job {A} {B} m f qm ff w =
    before-Fenced job w (m w).1 ((m >>= f) w).1 (qm.at w).0 (qm.at w).1 (go (m w).0 (m w).1)
  where
    go : (r : Result A) (w' : World) → Fenced job w' (continue r f w').1
    go (ok a) w' = ff a w'
    go (err e) w' = Quiet-Fenced job (fail {A = B} e) (fail-Quiet job e) w'

module _ (cfg : PublisherConfig) (job : ReviewJob) (result : ReviewResult) where
  begun-Fenced :
      (cred : Credentials) (w w₁ : World) (r : Result ReviewPublication)
      → Granted job.id (r, w₁.db)
      → (IsReserved job.id w.db → Refused job.id (r, w₁.db))
      → posts w₁ ≡ posts w
      → (IsReserved job.id w.db → IsReserved job.id w₁.db)
      → Fenced job.id w (begun cfg job result cred r w₁).1
  begun-Fenced cred w w₁ (ok row) granted refused same kept =
      let (few, reserved) =
        post_review-sends cfg job result cred (owner_and_repo job.repo_full_name) w₁ granted in
      record {
        one_at_most = omega (arith, few);
        none_if_reserved = λ h. absurd (refused h);
        stays_reserved = λ h. reserved;
        reserved_if_sent = λ lt. reserved;
      }
  begun-Fenced cred w w₁ (err e) granted refused same kept =
      before-Fenced job.id w w₁ (begun cfg job result cred (err e) w₁).1 same kept (
        Quiet-Fenced job.id (begun cfg job result cred (err e))
          (if-Quiet job.id (is_publication_exists e) _ _ (existing-Quiet job e)
            (fail-Quiet job.id _))
          w₁)

  reserve_and_post-Fenced :
      (cred : Credentials) (w : World) → Fenced job.id w (reserve_and_post cfg job result cred w).1
  unfolding reserve_and_post
  reserve_and_post-Fenced cred w =
      let b = Publishing.begin_publication job.id cred.account cred.kind w.db in
      let q = (begin-Quiet job.id cred.account cred.kind).at w in
      begun-Fenced cred w (record w { db = b.1 }) b.0
        (begin-Granted job.id cred.account cred.kind w.db)
        (begin-Refused job.id cred.account cred.kind w.db) q.0 q.1

  publish_real-Fenced :
      (w : World)
      → Fenced job.id w
          ((do
            t ← user_token cfg job
            cred ← resolve cfg job t
            reserve_and_post cfg job result cred)
            w).1
  publish_real-Fenced = bind-Fenced job.id (user_token cfg job) _ (user_token-Quiet job cfg) λ t.
      bind-Fenced job.id (resolve cfg job t) _ (resolve-Quiet job cfg t) reserve_and_post-Fenced

  -- An attempt to publish sends one review at most, none if the slot of the job was taken before it;
  -- a slot that was taken stays taken, and it is taken after a review was sent.
  pub publish-Fenced : (w : World) → Fenced job.id w (publish cfg job result w).1
  unfolding publish
  publish-Fenced w = elim (Bool-cases cfg.publish_comments) [
    | inl real ↦ rw real (publish_real-Fenced w)
    | inr dry ↦ rw dry (Quiet-Fenced job.id (publish_dry job) (publish_dry-Quiet job) w)
  ]
