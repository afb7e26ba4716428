-- ===== src/Worker/Lost.antt =====
-- A worker (internal/worker) whose job was finished, cancelled or taken over by another worker.
pub mod Anywhere
use agent_frei_igi.Prelude.{
  ◌<◌, ◌≡◌, ◌⊎◌, refl, inl, inr, true, Option, none, some, List, [], ◌∷◌, arith, Result, ok, err,
  Error, Action, continue, ◌>>=◌, Bool-cases, is_canceled, job_cancelled, wrap, bytes,
}
use agent_frei_igi.Domain.{ReviewJob}
use agent_frei_igi.Store.Jobs
use agent_frei_igi.Store.Jobs.{get_job}
use agent_frei_igi.Store.Jobs.Commands.{Command, heartbeat, run, history}
use agent_frei_igi.Store.Jobs.Keys.{IsKeyed, history-IsKeyed}
use agent_frei_igi.Store.Jobs.Machine.{history-Becomes}
use agent_frei_igi.Store.Jobs.Fencing.{is_terminal, terminal_final, Life-generation}
use agent_frei_igi.Store.Db
use agent_frei_igi.Store.Db.{Db, pass}
use agent_frei_igi.Store.Db.Rules.{Survives, query_rule}
use agent_frei_igi.Critic.{ReviewResult}
use agent_frei_igi.World.{World, Signal, tick, shutdown}
use agent_frei_igi.Diplomat.Publish.Quiet.{posts}
use agent_frei_igi.Worker.{
  WorkerConfig, signalled, signals_pass, context_error, after_batch, look, lost_row, lost_reply,
  is_cancelled_in_db, check_held, guard, detective_stage, diplomat_stage, run_pipeline, aborted,
  settle, process,
}
use agent_frei_igi.Worker.Quiet.{guard-Quiet}

-- The row of the claimed job is finished, or has a later generation than the claim.
pub record IsLost (job : ReviewJob) (jobs : Jobs.Jobs) : Type 0 where
  pub keyed : IsKeyed jobs
  pub row : ReviewJob
  pub found : get_job job.id jobs ≡ some row
  pub passed : (is_terminal row.status ≡ true) ⊎ (job.lock_generation < row.lock_generation)

history-IsLost :
    (job : ReviewJob) (cs : List Command) (jobs : Jobs.Jobs)
    → IsLost job jobs
    → IsLost job (history cs jobs)
history-IsLost job cs jobs l = elim l.passed [
  | inl done ↦ record {
    keyed = history-IsKeyed cs jobs l.keyed;
    row = l.row;
    found = terminal_final cs job.id jobs l.keyed l.found done;
    passed = inl done;
  }
  | inr stale ↦
      let (k, found, life) = history-Becomes cs job.id jobs l.keyed l.found in
      record {
        keyed = history-IsKeyed cs jobs l.keyed;
        row = k;
        found = found;
        passed = inr (omega (arith, Life-generation life));
      }
]

IsLost-survives : (job : ReviewJob) → Survives (λ db. IsLost job db.jobs)
unfolding pass
IsLost-survives job m ms db l = history-IsLost job m.others db.jobs l

module _ (cfg : WorkerConfig) (job : ReviewJob) where
  lost_row-IsLost :
      (row : ReviewJob)
      → (is_terminal row.status ≡ true) ⊎ (job.lock_generation < row.lock_generation)
      → lost_row cfg job row ≡ true
  lost_row-IsLost row (inl done) = ground arith
  lost_row-IsLost row (inr stale) = ground arith

  signalled-IsLost :
      (e : Option Error) (s : Signal) (w : World)
      → IsLost job w.db.jobs
      → IsLost job (signalled cfg job e s w).db.jobs
  unfolding Db.heartbeat_job history run
  signalled-IsLost (some e) s w l = l
  signalled-IsLost none tick w l =
      query_rule (λ db. IsLost job db.jobs) (λ r. IsLost job r.1.jobs) _ (IsLost-survives job)
        (λ db p. beat_keeps db p) (λ db e p. p) (λ db e p. beat_keeps db p) w.db l
    where
      beat_keeps :
          (db : Db)
          → IsLost job db.jobs
          → IsLost job
              (Jobs.heartbeat_job db.now job.id job.lock_generation cfg.worker_id cfg.worker_lease
                db.jobs).1
      beat_keeps db p =
          history-IsLost job
            (heartbeat db.now job.id job.lock_generation cfg.worker_id cfg.worker_lease ∷ [])
            db.jobs p
  signalled-IsLost none shutdown w l = l

  signals_pass-IsLost :
      (ss : List Signal) (w : World)
      → IsLost job w.db.jobs
      → IsLost job (signals_pass cfg job ss w).db.jobs
  unfolding signals_pass
  signals_pass-IsLost [] w l = l
  signals_pass-IsLost (s ∷ ss) w l =
      signals_pass-IsLost ss (signalled cfg job w.ctx_err s w) (signalled-IsLost w.ctx_err s w l)

  after_batch-IsLost :
      (bs : List (List Signal)) (w : World)
      → IsLost job w.db.jobs
      → IsLost job (after_batch cfg job bs w).db.jobs
  after_batch-IsLost [] w l = l
  after_batch-IsLost (b ∷ bs) w l = signals_pass-IsLost b (record w { signals = bs }) l

  context_error-IsLost :
      (e : Option Error) (w : World)
      → IsLost job w.db.jobs
      → IsLost job (context_error e w).1.db.jobs
  context_error-IsLost none w l = l
  context_error-IsLost (some e) w l = l

  look-IsLost : (w : World) → IsLost job w.db.jobs → IsLost job (look cfg job w).1.db.jobs
  unfolding look
  look-IsLost w l =
      let w' = after_batch cfg job w.signals w in
      context_error-IsLost w'.ctx_err w' (after_batch-IsLost w.signals w l)

  -- The query says so, or fails.
  is_cancelled_in_db-IsLost :
      (w : World)
      → IsLost job w.db.jobs
      → ((is_cancelled_in_db cfg job w).0 ≡ true)
        × IsLost job (is_cancelled_in_db cfg job w).1.db.jobs
  unfolding is_cancelled_in_db Db.get_job
  is_cancelled_in_db-IsLost w l =
      query_rule (λ db. IsLost job db.jobs)
        (λ r.
          (lost_reply cfg job (wrap (bytes "failed to get job") r.0) ≡ true) × IsLost job r.1.jobs)
        (λ db. (ok (get_job job.id db.jobs), db)) (IsLost-survives job)
        (λ db p. (rw p.found (lost_row-IsLost p.row p.passed), p)) (λ db e p. (refl, p))
        (λ db e p. (refl, p)) w.db l

-- An action that ended in an error, with the job still lost.
record Stopped (job : ReviewJob) {A : Type 0} (r : Result A × World) : Type 0 where
  error : Error
  is_error : r.0 ≡ err error
  still : IsLost job r.1.db.jobs

module _ (job : ReviewJob) {A B : Type 0} where
  continue-Stopped :
      (r : Result A) (f : A → Action World B) (w : World)
      → ((a : A) (w' : World) → IsLost job w'.db.jobs → Stopped job (f a w'))
      → IsLost job w.db.jobs
      → Stopped job (continue r f w)
  continue-Stopped (ok a) f w h l = h a w l
  continue-Stopped (err e) f w h l = record { error = e; is_error = refl; still = l }

  bind-Stopped :
      (m : Action World A) (f : A → Action World B) (w : World)
      → Stopped job (m w)
      → Stopped job ((m >>= f) w)
  bind-Stopped m f w s = record {
    error = s.error;
    is_error = rw s.is_error refl;
    still = rw s.is_error s.still;
  }

module _ (cfg : WorkerConfig) (job : ReviewJob) where
  check_held-Stopped : (w : World) → IsLost job w.db.jobs → Stopped job (check_held cfg job w)
  unfolding check_held
  check_held-Stopped w l =
      let (lost, still) = is_cancelled_in_db-IsLost cfg job w l in
      record { error = job_cancelled; is_error = rw lost refl; still = rw lost still }

  guard-Stopped : (w : World) → IsLost job w.db.jobs → Stopped job (guard cfg job w)
  unfolding guard
  guard-Stopped w l =
      continue-Stopped job (look cfg job w).0 (λ _. check_held cfg job) (look cfg job w).1
        (λ a w' p. check_held-Stopped w' p) (look-IsLost cfg job w l)

  guarded-posts :
      {A : Type 0} (k : Unit {0} → Action World A) (w : World)
      → IsLost job w.db.jobs
      → posts ((guard cfg job >>= k) w).1 ≡ posts w
  guarded-posts k w l =
      let s = guard-Stopped w l in
      let (same, kept) = (guard-Quiet job.id cfg job).at w in rw s.is_error same

  -- Where the job is lost before Diplomat's stage, the stage ends in an error and no review is sent, for
  -- every result of Critic's.
  pub lost_before_diplomat :
      (result : ReviewResult) (w : World)
      → IsLost job w.db.jobs
      → (posts (diplomat_stage cfg job result w).1 ≡ posts w)
        × ((e : Error) × ((diplomat_stage cfg job result w).0 ≡ err e))
  unfolding diplomat_stage
  lost_before_diplomat result w l =
      let s = bind-Stopped job (guard cfg job) _ w (guard-Stopped w l) in
      (guarded-posts _ w l, (s.error, s.is_error))
