-- ===== src/Worker/Once.antt =====
-- A worker's whole run of a job, and the reviews that it sends.
use agent_frei_igi.Prelude.{
  ℕ, refl, ◌∙◌, inl, inr, Bool, true, false, Text, Option, some, arith, Result, ok, err, Error,
  Action, continue, ◌>>=◌, Bool-cases, ltb, ltb→lt, not_ltb→le, is_canceled, error_text,
}
use agent_frei_igi.Domain.{ReviewJob}
use agent_frei_igi.Critic.{ReviewResult}
use agent_frei_igi.World.{World}
use agent_frei_igi.Diplomat.Publish.Quiet.{posts, Quiet, pure-Quiet, bind-Quiet}
use agent_frei_igi.Diplomat.Publish.Once.{Fenced, Quiet-Fenced, bind-Fenced, publish-Fenced}
use agent_frei_igi.Worker.{
  WorkerConfig, guard, detective_stage, memory_stage, critic_stage, diplomat_stage, run_pipeline,
  abort_or_fail, settle, process, is_cancelled_in_db,
}
use agent_frei_igi.Worker.Quiet.{
  guard-Quiet, detective_stage-Quiet, memory_stage-Quiet, critic_stage-Quiet, fail_job-Quiet,
  complete_job-Quiet, is_cancelled_in_db-Still, Still,
}

-- One stretch after another.
pub then-Fenced : (job : ℕ) (w w₁ w₂ : World) → Fenced job w w₁ → Fenced job w₁ w₂ → Fenced job w w₂
then-Fenced job w w₁ w₂ f g = elim (Bool-cases (ltb (posts w) (posts w₁))) [
  | inl sent ↦
      let taken = f.reserved_if_sent (ltb→lt (posts w) (posts w₁) sent) in
      record {
        one_at_most = omega (arith, g.none_if_reserved taken, f.one_at_most);
        none_if_reserved = λ h. g.none_if_reserved taken ∙ f.none_if_reserved h;
        stays_reserved = λ h. g.stays_reserved taken;
        reserved_if_sent = λ lt. g.stays_reserved taken;
      }
  | inr quiet ↦
      let le = not_ltb→le (posts w) (posts w₁) quiet in
      record {
        one_at_most = omega (arith, g.one_at_most);
        none_if_reserved = λ h. g.none_if_reserved (f.stays_reserved h) ∙ f.none_if_reserved h;
        stays_reserved = λ h. g.stays_reserved (f.stays_reserved h);
        reserved_if_sent = λ lt. g.reserved_if_sent (omega arith);
      }
]

Still-Fenced : (slot : ℕ) (w w' : World) → Still slot w w' → Fenced slot w w'
Still-Fenced slot w w' s = record {
  one_at_most = omega (arith, s.same);
  none_if_reserved = λ h. s.same;
  stays_reserved = s.kept;
  reserved_if_sent = λ lt. absurd (omega (arith, s.same));
}

-- What follows a stage that may have sent the review.
after-Fenced :
    (slot : ℕ) {A B : Type 0} (m : Action World A) (f : A → Action World B)
    → ((w : World) → Fenced slot w (m w).1)
    → ((a : A) → Quiet slot (f a))
    → (w : World) → Fenced slot w ((m >>= f) w).1
after-Fenced slot {A} {B} m f fm qf w =
    then-Fenced slot w (m w).1 ((m >>= f) w).1 (fm w) (go (m w).0)
  where
    go : (r : Result A) → Fenced slot (m w).1 (continue r f (m w).1).1
    go (ok a) = Quiet-Fenced slot (f a) (qf a) (m w).1
    go (err e) = Still-Fenced slot (m w).1 (m w).1 (record { same = refl; kept = λ h. h })

module _ (cfg : WorkerConfig) (job : ReviewJob) where
  diplomat_stage-Fenced :
      (result : ReviewResult) (w : World) → Fenced job.id w (diplomat_stage cfg job result w).1
  unfolding diplomat_stage
  diplomat_stage-Fenced result =
      bind-Fenced job.id (guard cfg job) _ (guard-Quiet job.id cfg job)
        λ _ w. publish-Fenced cfg.diplomat job result w

  run_pipeline-Fenced : (w : World) → Fenced job.id w (run_pipeline cfg job w).1
  unfolding run_pipeline
  run_pipeline-Fenced =
      bind-Fenced job.id (detective_stage cfg job) _ (detective_stage-Quiet job.id cfg job) λ ctx.
        bind-Fenced job.id (memory_stage cfg job) _ (memory_stage-Quiet job.id cfg job) λ _.
          bind-Fenced job.id (critic_stage cfg job ctx) _ (critic_stage-Quiet job.id cfg job ctx)
            λ reviewed.
              after-Fenced job.id (diplomat_stage cfg job reviewed.0) _
                (diplomat_stage-Fenced reviewed.0)
                λ _.
                  bind-Quiet job.id (guard cfg job) _ (guard-Quiet job.id cfg job)
                    λ _. pure-Quiet job.id reviewed.1

  abort_or_fail-Still :
      (b : Bool) (e : Error) (w : World) → Still job.id w (abort_or_fail cfg job b e w).1
  abort_or_fail-Still true e w = record { same = refl; kept = λ h. h }
  abort_or_fail-Still false e w =
      let (same, kept) =
        (fail_job-Quiet job.id job.id job.lock_generation cfg.worker_id (error_text e)).at w in
      record { same = same; kept = kept }

  pub settle-Still : (r : Result Text) (w : World) → Still job.id w (settle cfg job r w).1
  settle-Still (ok blob) w =
      let (same, kept) =
        (complete_job-Quiet job.id job.id job.lock_generation cfg.worker_id (some blob)).at w in
      record { same = same; kept = kept }
  settle-Still (err e) w = elim (Bool-cases (is_canceled e)) [
    | inl c ↦ rw c (record { same = refl; kept = λ h. h })
    | inr c ↦
        let q = is_cancelled_in_db cfg job w in
        let s = is_cancelled_in_db-Still job.id cfg job w in
        let t = abort_or_fail-Still q.0 e q.1 in
        rw c (record { same = t.same ∙ s.same; kept = λ h. t.kept (s.kept h) })
  ]

  pub process-Fenced :
      (parent : Option Error) (w : World) → Fenced job.id w (process cfg job parent w).1
  unfolding process
  process-Fenced parent w =
      let started = record w { ctx_err = parent } in
      let (r, w') = run_pipeline cfg job started in
      let f = run_pipeline-Fenced started in
      then-Fenced job.id w (run_pipeline cfg job started).1 _
        (record {
          one_at_most = f.one_at_most;
          none_if_reserved = f.none_if_reserved;
          stays_reserved = f.stays_reserved;
          reserved_if_sent = f.reserved_if_sent;
        })
        (Still-Fenced job.id (run_pipeline cfg job started).1 _
          (settle-Still (run_pipeline cfg job started).0 (run_pipeline cfg job started).1))

-- One run of a job by a worker.
pub record Run : Type 0 where
  pub config : WorkerConfig
  pub job : ReviewJob
  pub parent : Option Error
