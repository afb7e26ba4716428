-- ===== src/Worker/Silent.antt =====
-- A worker (internal/worker) whose publisher does not publish comments: whatever it runs, it sends no
-- review.
use agent_frei_igi.Prelude.{
  ◌≡◌, refl, ◌∙◌, false, Option, none, some, List, [], ◌∷◌, Result, ok, err, Error,
}
use agent_frei_igi.Domain.{ReviewJob}
use agent_frei_igi.Critic.{ReviewResult}
use agent_frei_igi.Store.Db
use agent_frei_igi.World.{World, on_db}
use agent_frei_igi.Diplomat.Publish.{publish}
use agent_frei_igi.Diplomat.Publish.Quiet.{posts, Quiet, pure-Quiet, bind-Quiet, wrapping-Quiet}
use agent_frei_igi.Diplomat.Publish.Parts.{publish_dry-Quiet}
use agent_frei_igi.Worker.{
  WorkerConfig, guard, detective_stage, memory_stage, critic_stage, diplomat_stage, run_pipeline,
  process, run_claimed, poll_and_process,
}
use agent_frei_igi.Worker.Quiet.{
  guard-Quiet, detective_stage-Quiet, memory_stage-Quiet, critic_stage-Quiet,
}
use agent_frei_igi.Worker.Once.{settle-Still}
use agent_frei_igi.Worker.Loop.{LoopEvent, ticked, done, select_loop, run_loop}

module _ (cfg : WorkerConfig) (dry : cfg.diplomat.publish_comments ≡ false) where
  publish-Quiet :
      (job : ReviewJob) (result : ReviewResult) → Quiet job.id (publish cfg.diplomat job result)
  unfolding publish
  publish-Quiet job result = rw dry (publish_dry-Quiet job)

  diplomat_stage-Quiet :
      (job : ReviewJob) (result : ReviewResult) → Quiet job.id (diplomat_stage cfg job result)
  unfolding diplomat_stage
  diplomat_stage-Quiet job result =
      bind-Quiet job.id (guard cfg job) _ (guard-Quiet job.id cfg job)
        λ _. wrapping-Quiet job.id _ _ (publish-Quiet job result)

  run_pipeline-Quiet : (job : ReviewJob) → Quiet job.id (run_pipeline cfg job)
  unfolding run_pipeline
  run_pipeline-Quiet job =
      bind-Quiet job.id (detective_stage cfg job) _ (detective_stage-Quiet job.id cfg job) λ ctx.
        bind-Quiet job.id (memory_stage cfg job) _ (memory_stage-Quiet job.id cfg job) λ _.
          bind-Quiet job.id (critic_stage cfg job ctx) _ (critic_stage-Quiet job.id cfg job ctx)
            λ reviewed.
              bind-Quiet job.id (diplomat_stage cfg job reviewed.0) _
                (diplomat_stage-Quiet job reviewed.0)
                λ _.
                  bind-Quiet job.id (guard cfg job) _ (guard-Quiet job.id cfg job)
                    λ _. pure-Quiet job.id reviewed.1

  process-silent :
      (job : ReviewJob) (parent : Option Error) (w : World)
      → posts (process cfg job parent w).1 ≡ posts w
  unfolding process
  process-silent job parent w =
      let started = record w { ctx_err = parent } in
      let r = run_pipeline cfg job started in
      let (same, kept) = (run_pipeline-Quiet job).at started in
      let s = settle-Still cfg job r.0 r.1 in s.same ∙ same

  run_claimed-silent :
      (parent : Option Error) (r : Result (Option ReviewJob)) (w : World)
      → posts (run_claimed cfg parent r w).1 ≡ posts w
  run_claimed-silent parent (err e) w = refl
  run_claimed-silent parent (ok none) w = refl
  run_claimed-silent parent (ok (some job)) w = process-silent job parent w

  poll-silent :
      (parent : Option Error) (w : World) → posts (poll_and_process cfg parent w).1 ≡ posts w
  unfolding poll_and_process
  poll-silent parent w =
      let claim = on_db (Db.claim_job cfg.locked cfg.worker_id cfg.worker_lease) w in
      run_claimed-silent parent claim.0 claim.1

  select_loop-silent :
      (events : List LoopEvent) (w : World) → posts (select_loop cfg events w) ≡ posts w
  unfolding select_loop
  select_loop-silent [] w = refl
  select_loop-silent (done ∷ events) w = refl
  select_loop-silent (ticked e ∷ events) w =
      select_loop-silent events (poll_and_process cfg e w).1 ∙ poll-silent e w

  pub run_loop-silent :
      (e : Option Error) (events : List LoopEvent) (w : World)
      → posts (run_loop cfg e events w) ≡ posts w
  unfolding run_loop
  run_loop-silent e events w =
      select_loop-silent events (poll_and_process cfg e w).1 ∙ poll-silent e w
