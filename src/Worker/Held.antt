-- ===== src/Worker/Held.antt =====
-- The look at the job before a stage (internal/worker/pipeline.go, isCancelledInDB of worker.go): what it
-- has read when the run goes on.
use agent_frei_igi.Prelude.{
  ◌≡◌, refl, ap, continue, true, false, Option, none, some, arith, Result, ok, err, Text, text_eq,
  eq_of_text_eq, get_or_else, Bool-cases, inl, inr, wrap, bytes, ==_iff, ◌==◌,
}
use agent_frei_igi.Domain.{ReviewJob, JobStatus, running, is_running}
use agent_frei_igi.Store.Jobs
use agent_frei_igi.Store.Jobs.{get_job}
use agent_frei_igi.Store.Jobs.Columns.{IsHeld}
use agent_frei_igi.Store.Jobs.Machine.{get_job-id}
use agent_frei_igi.Store.Db
use agent_frei_igi.Store.Db.Rules.{query_rule}
use agent_frei_igi.World.{World}
use agent_frei_igi.Worker.{
  WorkerConfig, guard, look, lost_row, lost_reply, is_cancelled_in_db, check_held,
}

held_by_text :
    (o : Option Text) (worker : Text)
    → get_or_else false o (λ holder. text_eq holder worker) ≡ true
    → o ≡ some worker
held_by_text none worker h = cc
held_by_text (some w) worker h = ap some (eq_of_text_eq w worker h)

is_running_only : (s : JobStatus) → is_running s ≡ true → s ≡ running
is_running_only s h = ground arith

module _ (cfg : WorkerConfig) (job : ReviewJob) where
  -- The table has the job as running, under this worker and the generation of its claim.
  abbrev pub HeldIn : Jobs.Jobs → Type 0
  HeldIn jobs =
      (row : ReviewJob) × (get_job job.id jobs ≡ some row)
      × IsHeld job.id job.lock_generation cfg.worker_id row

  kept_row-HeldIn :
      (jobs : Jobs.Jobs) (row : ReviewJob)
      → get_job job.id jobs ≡ some row
      → lost_row cfg job row ≡ false
      → HeldIn jobs
  kept_row-HeldIn jobs row found kept =
      let runs : is_running row.status ≡ true = ground arith in
      let mine : get_or_else false row.locked_by (λ holder. text_eq holder cfg.worker_id) ≡ true =
        ground arith in
      let generation : (row.lock_generation == job.lock_generation) ≡ true = ground arith in
      (
        row,
        found,
        (
          get_job-id job.id jobs found,
          (==_iff row.lock_generation job.lock_generation).0 generation,
          held_by_text row.locked_by cfg.worker_id mine,
          is_running_only row.status runs,
        ),
      )

  reply-HeldIn :
      (jobs : Jobs.Jobs) (o : Option ReviewJob)
      → get_job job.id jobs ≡ o
      → lost_reply cfg job (ok o) ≡ false
      → HeldIn jobs
  reply-HeldIn jobs none found kept = cc
  reply-HeldIn jobs (some row) found kept = kept_row-HeldIn jobs row found kept

  is_cancelled_in_db-HeldIn :
      (w : World)
      → (is_cancelled_in_db cfg job w).0 ≡ false
      → HeldIn (is_cancelled_in_db cfg job w).1.db.jobs
  unfolding is_cancelled_in_db Db.get_job
  is_cancelled_in_db-HeldIn w =
      query_rule (λ db. Unit {0})
        (λ r. lost_reply cfg job (wrap (bytes "failed to get job") r.0) ≡ false → HeldIn r.1.jobs)
        (λ db. (ok (get_job job.id db.jobs), db)) (λ m ms d p. tt)
        (λ db p kept. reply-HeldIn db.jobs (get_job job.id db.jobs) refl kept) (λ db e p kept. cc)
        (λ db e p kept. cc) w.db tt

  check_held-HeldIn :
      (w : World) {w' : World} → check_held cfg job w ≡ (ok tt, w') → HeldIn w'.db.jobs
  unfolding check_held
  check_held-HeldIn w h = elim (Bool-cases (is_cancelled_in_db cfg job w).0) [
    | inl lost ↦ absurd (cc (rw lost at h))
    | inr kept ↦ rw (← ap (λ p. p.1) (rw kept at h)) (is_cancelled_in_db-HeldIn w kept)
  ]

  -- A look that lets the run go on has read that the job is held.
  pub guard-HeldIn : (w : World) {w' : World} → guard cfg job w ≡ (ok tt, w') → HeldIn w'.db.jobs
  unfolding guard
  guard-HeldIn w h = by_look (look cfg job w).0 h
    where
      by_look :
          (r : Result (Unit {0})) {w' : World}
          → continue r (λ _. check_held cfg job) (look cfg job w).1 ≡ (ok tt, w')
          → HeldIn w'.db.jobs
      by_look (ok u) h = check_held-HeldIn (look cfg job w).1 h
      by_look (err e) h = cc
