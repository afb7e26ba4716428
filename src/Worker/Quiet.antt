-- ===== src/Worker/Quiet.antt =====
-- The stages of a worker (internal/worker) before Diplomat's, and its statements.
use agent_frei_igi.Prelude.{
  ℕ, ◌≡◌, refl, ap, Bool, true, false, ◌||◌, Text, bytes, is_empty, Option, none, some, List, [],
  ◌∷◌, length, Result, ok, Error, Action, wrap, arith, ◌∙◌,
}
use agent_frei_igi.Domain.{ChangedFile, Installation, ReviewJob, ReviewContext}
use agent_frei_igi.Store.Db
use agent_frei_igi.Store.Jobs
use agent_frei_igi.Store.Db.{Db, query, fenced_query}
use agent_frei_igi.Store.Db.Rules.{IsReserved}
use agent_frei_igi.Critic.Review.{review}
use agent_frei_igi.GithubApp.{Client, Post, list_pr_files}
use agent_frei_igi.World.{World, Signal, tick, shutdown, on_db, on_github}
use agent_frei_igi.Detective.Build.{
  DetectiveConfig, build, credentials, existing_installation, owner_and_repo, named, choose_client,
  files_url, review_context,
}
use agent_frei_igi.Diplomat.Publish.Quiet.{
  posts, Quiet, query-IsReserved, on_db-Quiet, pure-Quiet, fail-Quiet, wrapping-Quiet, bind-Quiet,
}
use agent_frei_igi.Diplomat.Publish.Steps.{get_installation-Quiet, get_token-Quiet}
use agent_frei_igi.Diplomat.Publish.Parts.{after-Quiet, if-Quiet, reply-Quiet}
use agent_frei_igi.Worker.{
  WorkerConfig, signalled, signals_pass, context_error, after_batch, look, is_cancelled_in_db,
  refuse_if, lost_reply, check_held, guard, detective_stage, memory_stage, critic_stage,
}

pub on_github-Quiet :
    (job : ℕ) {A : Type 0} (act : Action Client A)
    → ((c : Client) → (act c).1.posts ≡ c.posts)
    → Quiet job (on_github act)
on_github-Quiet job act same = record {
  at = λ w. (ap (λ (ps : List Post). length ps) (same w.github), λ h. h);
}

posts-list_pr_files : (url : Text) (c : Client) → (list_pr_files url c).1.posts ≡ c.posts
unfolding list_pr_files
posts-list_pr_files url c = ground arith

module _ (job : ℕ) where
  credentials-Quiet : (cfg : DetectiveConfig) → Quiet job (credentials cfg)
  unfolding credentials
  credentials-Quiet cfg = if-Quiet job cfg.injected _ _ (pure-Quiet job []) (
      if-Quiet job (is_empty cfg.github_app_id || is_empty cfg.private_key_path) _ _
        (fail-Quiet job _) (reply-Quiet job _))

  choose_client-Quiet : (injected : Bool) → Quiet job (choose_client injected)
  unfolding choose_client
  choose_client-Quiet true = pure-Quiet job tt
  choose_client-Quiet false = on_github-Quiet job _ (λ c. refl)

  existing_installation-Quiet :
      (id : ℕ) (row : Option Installation) → Quiet job (existing_installation id row)
  unfolding existing_installation
  existing_installation-Quiet id none = fail-Quiet job _
  existing_installation-Quiet id (some inst) = pure-Quiet job inst

  named-Quiet : (name : Option (Text × Text)) → Quiet job (named name)
  named-Quiet none = fail-Quiet job _
  named-Quiet (some p) = pure-Quiet job p

  list_pr_files-Quiet : (url : Text) → Quiet job (on_github (list_pr_files url))
  list_pr_files-Quiet url = on_github-Quiet job (list_pr_files url) (posts-list_pr_files url)

  build-Quiet : (cfg : DetectiveConfig) (j : ReviewJob) → Quiet job (build cfg j)
  unfolding build
  build-Quiet cfg j = bind-Quiet job (credentials cfg) _ (credentials-Quiet cfg) λ _.
      bind-Quiet job _ _ (wrapping-Quiet job _ _ (get_installation-Quiet job j.installation_id))
        λ row. bind-Quiet job _ _ (existing_installation-Quiet j.installation_id row) λ inst.
          bind-Quiet job _ _ (named-Quiet (owner_and_repo j.repo_full_name)) λ name.
            bind-Quiet job _ _ (choose_client-Quiet cfg.injected) λ _.
              bind-Quiet job _ _
                (wrapping-Quiet job _ _ (get_token-Quiet job inst.github_installation_id))
                λ token.
                  bind-Quiet job {A = List ChangedFile} _
                    (λ files w. (ok (review_context cfg j inst files w.db.now), w))
                    (wrapping-Quiet job (bytes "failed to fetch PR files") _
                      (list_pr_files-Quiet (files_url cfg.api_base_url name.0 name.1 j.pr_number)))
                    λ files. record { at = λ w. (refl, λ h. h) }

  fenced-Quiet :
      (m : Text) (statement : ℕ → Jobs.Jobs → Result (Unit {0}) × Jobs.Jobs)
      → Quiet job (on_db (fenced_query m statement))
  unfolding fenced_query
  fenced-Quiet m statement =
      on_db-Quiet job (fenced_query m statement) (query-IsReserved job _ (λ db h. h))

-- A change of the world that is no action, and sends nothing.
pub record Still (slot : ℕ) (w w' : World) : Type 0 where
  pub same : posts w' ≡ posts w
  pub kept : IsReserved slot w.db → IsReserved slot w'.db

module _ (slot : ℕ) (cfg : WorkerConfig) (job : ReviewJob) where
  heartbeat-Quiet :
      Quiet slot
        (on_db (Db.heartbeat_job job.id job.lock_generation cfg.worker_id cfg.worker_lease))
  unfolding Db.heartbeat_job
  heartbeat-Quiet =
      on_db-Quiet slot (Db.heartbeat_job job.id job.lock_generation cfg.worker_id cfg.worker_lease)
        (query-IsReserved slot _ (λ db h. h))

  get_job-Quiet : Quiet slot (on_db (Db.get_job job.id))
  unfolding Db.get_job
  get_job-Quiet = on_db-Quiet slot (Db.get_job job.id) (query-IsReserved slot _ (λ db h. h))

  signalled-Still :
      (e : Option Error) (s : Signal) (w : World) → Still slot w (signalled cfg job e s w)
  signalled-Still (some e) s w = record { same = refl; kept = λ h. h }
  signalled-Still none tick w =
      let (same, kept) = heartbeat-Quiet.at w in record { same = same; kept = kept }
  signalled-Still none shutdown w = record { same = refl; kept = λ h. h }

  signals_pass-Still : (ss : List Signal) (w : World) → Still slot w (signals_pass cfg job ss w)
  unfolding signals_pass
  signals_pass-Still [] w = record { same = refl; kept = λ h. h }
  signals_pass-Still (s ∷ ss) w =
      let first = signalled-Still w.ctx_err s w in
      let later = signals_pass-Still ss (signalled cfg job w.ctx_err s w) in
      record { same = later.same ∙ first.same; kept = λ h. later.kept (first.kept h) }

  after_batch-Still :
      (bs : List (List Signal)) (w : World) → Still slot w (after_batch cfg job bs w)
  after_batch-Still [] w = record { same = refl; kept = λ h. h }
  after_batch-Still (b ∷ bs) w =
      let s = signals_pass-Still b (record w { signals = bs }) in
      record { same = s.same; kept = s.kept }

  context_error-Quiet : (e : Option Error) → Quiet slot (context_error e)
  context_error-Quiet none = pure-Quiet slot tt
  context_error-Quiet (some e) = fail-Quiet slot e

  pub look-Quiet : Quiet slot (look cfg job)
  unfolding look
  look-Quiet = record {
    at = λ w.
        let s = after_batch-Still w.signals w in
        let w' = after_batch cfg job w.signals w in
        let (same, kept) = (context_error-Quiet w'.ctx_err).at w' in
        (same ∙ s.same, λ h. kept (s.kept h));
  }

  refuse_if-Quiet : (b : Bool) → Quiet slot (refuse_if b)
  refuse_if-Quiet true = fail-Quiet slot _
  refuse_if-Quiet false = pure-Quiet slot tt

  pub check_held-Quiet : Quiet slot (check_held cfg job)
  unfolding check_held is_cancelled_in_db
  check_held-Quiet =
      after-Quiet slot (on_db (Db.get_job job.id)) (λ r. refuse_if (lost_reply cfg job r))
        get_job-Quiet (λ r. refuse_if-Quiet (lost_reply cfg job r))

  pub is_cancelled_in_db-Still : (w : World) → Still slot w (is_cancelled_in_db cfg job w).1
  unfolding is_cancelled_in_db
  is_cancelled_in_db-Still w =
      let (same, kept) = get_job-Quiet.at w in record { same = same; kept = kept }

  pub guard-Quiet : Quiet slot (guard cfg job)
  unfolding guard
  guard-Quiet = bind-Quiet slot (look cfg job) _ look-Quiet (λ _. check_held-Quiet)

  pub detective_stage-Quiet : Quiet slot (detective_stage cfg job)
  unfolding detective_stage Db.update_job_context
  detective_stage-Quiet = bind-Quiet slot (guard cfg job) _ guard-Quiet λ _.
      bind-Quiet slot _ _ (wrapping-Quiet slot _ _ (build-Quiet slot cfg.detective job)) λ ctx.
        bind-Quiet slot _ _
          (reply-Quiet slot
            (wrap (bytes "failed to marshal review context") (cfg.marshal_context ctx)))
          λ blob.
            bind-Quiet slot _ _ (wrapping-Quiet slot _ _ (fenced-Quiet slot _ _))
              λ _. pure-Quiet slot ctx

  pub memory_stage-Quiet : Quiet slot (memory_stage cfg job)
  unfolding memory_stage
  memory_stage-Quiet = bind-Quiet slot (guard cfg job) _ guard-Quiet (λ _. look-Quiet)

  pub critic_stage-Quiet : (ctx : ReviewContext) → Quiet slot (critic_stage cfg job ctx)
  unfolding critic_stage Db.update_job_result
  critic_stage-Quiet ctx = bind-Quiet slot (guard cfg job) _ guard-Quiet λ _.
      bind-Quiet slot _ _
        (reply-Quiet slot (wrap (bytes "critic stage failed") (review cfg.critic ctx)))
        λ result.
          bind-Quiet slot _ _
            (reply-Quiet slot
              (wrap (bytes "failed to marshal critic result") (cfg.marshal_result result)))
            λ blob.
              bind-Quiet slot _ _ (wrapping-Quiet slot _ _ (fenced-Quiet slot _ _))
                λ _. pure-Quiet slot (result, blob)

module _ (slot id gen : ℕ) (worker : Text) where
  pub fail_job-Quiet : (msg : Text) → Quiet slot (on_db (Db.fail_job id gen worker msg))
  unfolding Db.fail_job
  fail_job-Quiet msg =
      fenced-Quiet slot (bytes "fail query failed")
        (λ now rows. Jobs.fail_job now id gen worker msg rows)

  pub complete_job-Quiet :
      (result : Option Text) → Quiet slot (on_db (Db.complete_job id gen worker result))
  unfolding Db.complete_job
  complete_job-Quiet result =
      fenced-Quiet slot (bytes "complete query failed")
        (λ now rows. Jobs.complete_job now id gen worker result rows)
