-- ===== src/Worker/Lost/Anywhere.antt =====
-- A run of a job (internal/worker) that loses the job on its way.
use agent_frei_igi.Prelude.{
  true, List, [], ◌∷◌, continue, wrap, bytes, job_cancelled, is_canceled, Bool-cases, inl, inr, ◌≡◌,
  refl, ◌∙◌, Text, Option, Result, ok, err, Error, Action, ◌>>=◌, ◌>>◌, pure,
}
use agent_frei_igi.Domain.{ReviewJob, ReviewContext}
use agent_frei_igi.Critic.{ReviewResult}
use agent_frei_igi.World.{World}
use agent_frei_igi.Diplomat.Publish.Quiet.{posts}
use agent_frei_igi.Worker.{
  WorkerConfig, guard, detective_stage, memory_stage, critic_stage, diplomat_stage, run_pipeline,
  aborted, settle, process, look, check_held, is_cancelled_in_db, lost_reply,
}
use agent_frei_igi.Worker.Quiet.{look-Quiet, check_held-Quiet}
use agent_frei_igi.Worker.Once.{settle-Still}
use agent_frei_igi.Worker.Lost.{IsLost, IsLost-survives, lost_row-IsLost}
use agent_frei_igi.Store.Jobs.{get_job}
use agent_frei_igi.Store.Db
use agent_frei_igi.Store.Db.{
  Db, Moment, Link, up, down, unacknowledged, pass, deliver, at_moment, query,
}

-- A point of a run, with what it knows there: before each stage, and before the last look at the job.
pub data Point : Type 0 where
  at_detective : Point
  at_memory at_critic : ReviewContext → Point
  at_diplomat : ReviewResult × Text → Point
  at_end : Text → Point

-- The database when the next statement reads it: what others do before that has happened.
abbrev when_read : List Moment → Db → Db
when_read [] db = db
when_read (m ∷ ms) db = pass m ms db

-- The job is lost when the next statement reads it.
abbrev pub LostWhenRead : ReviewJob → Db → Type 0
LostWhenRead job db = IsLost job (when_read db.moments db).jobs

IsLost-LostWhenRead : (job : ReviewJob) (db : Db) → IsLost job db.jobs → LostWhenRead job db
IsLost-LostWhenRead job db l = go db.moments
  where
    go : (ms : List Moment) → IsLost job (when_read ms db).jobs
    go [] = l
    go (m ∷ ms) = IsLost-survives job m ms db l

-- An action from `v` that ended in an error, with the job still lost, and sent nothing.
record Halted (job : ReviewJob) (v : World) {A : Type 0} (r : Result A × World) : Type 0 where
  error : Error
  is_error : r.0 ≡ err error
  still : LostWhenRead job r.1.db
  quiet : posts r.1 ≡ posts v

bind-Halted :
    (job : ReviewJob) {A B : Type 0} (m : Action World A) (f : A → Action World B) (v : World)
    → Halted job v (m v)
    → Halted job v ((m >>= f) v)
bind-Halted job m f v s = record {
  error = s.error;
  is_error = rw s.is_error refl;
  still = rw s.is_error s.still;
  quiet = rw s.is_error s.quiet;
}

-- An action that succeeds goes on where it ended.
bind-step :
    {A B : Type 0} (m : Action World A) (f : A → Action World B) (v : World) {a : A} {v' : World}
    → m v ≡ (ok a, v')
    → (m >>= f) v ≡ f a v'
bind-step m f v e = rw e

module _ (cfg : WorkerConfig) (job : ReviewJob) where
  -- The points that a run from `w` comes to, and the world at each.
  pub data Reaches (w : World) : Point → World → Type 0 where
    started : Reaches w at_detective w
    built :
        {v v' : World} {ctx : ReviewContext}
        → Reaches w at_detective v
        → detective_stage cfg job v ≡ (ok ctx, v')
        → Reaches w (at_memory ctx) v'
    remembered :
        {v v' : World} {ctx : ReviewContext}
        → Reaches w (at_memory ctx) v
        → memory_stage cfg job v ≡ (ok tt, v')
        → Reaches w (at_critic ctx) v'
    reviewed :
        {v v' : World} {ctx : ReviewContext} {r : ReviewResult × Text}
        → Reaches w (at_critic ctx) v
        → critic_stage cfg job ctx v ≡ (ok r, v')
        → Reaches w (at_diplomat r) v'
    published :
        {v v' : World} {r : ReviewResult × Text}
        → Reaches w (at_diplomat r) v
        → diplomat_stage cfg job r.0 v ≡ (ok tt, v')
        → Reaches w (at_end r.1) v'

  -- What is left of the pipeline.
  abbrev remainder : Point → Action World Text
  remainder (at_end blob) = guard cfg job >> pure blob
  remainder (at_diplomat r) = diplomat_stage cfg job r.0 >> (guard cfg job >> pure r.1)
  remainder (at_critic ctx) =
      critic_stage cfg job ctx >>= λ r. diplomat_stage cfg job r.0 >> (guard cfg job >> pure r.1)
  remainder (at_memory ctx) =
      memory_stage cfg job
      >> (critic_stage cfg job ctx >>= λ r.
          diplomat_stage cfg job r.0 >> (guard cfg job >> pure r.1))
  remainder at_detective = run_pipeline cfg job

  Reaches-remainder :
      (w : World) {p : Point} {v : World} → Reaches w p v → run_pipeline cfg job w ≡ remainder p v
  unfolding run_pipeline
  Reaches-remainder w started = refl
  Reaches-remainder w (built {v = v} r e) =
      Reaches-remainder w r ∙ bind-step (detective_stage cfg job) _ v e
  Reaches-remainder w (remembered {v = v} r e) =
      Reaches-remainder w r ∙ bind-step (memory_stage cfg job) _ v e
  Reaches-remainder w (reviewed {v = v} {ctx = ctx} r e) =
      Reaches-remainder w r ∙ bind-step (critic_stage cfg job ctx) _ v e
  Reaches-remainder w (published {v = v} {r = x} r e) =
      Reaches-remainder w r ∙ bind-step (diplomat_stage cfg job x.0) _ v e

  delivered-IsLost :
      (l : Link) (db : Db)
      → IsLost job db.jobs
      → let r = deliver l (λ d. (ok (get_job job.id d.jobs), d)) db in
        (lost_reply cfg job (wrap (bytes "failed to get job") r.0) ≡ true) × IsLost job r.1.jobs
  delivered-IsLost up db l = (rw l.found (lost_row-IsLost cfg job l.row l.passed), l)
  delivered-IsLost (down e) db l = (refl, l)
  delivered-IsLost (unacknowledged e) db l = (refl, l)

  query-IsLost :
      (w : World)
      → LostWhenRead job w.db
      → ((is_cancelled_in_db cfg job w).0 ≡ true)
        × IsLost job (is_cancelled_in_db cfg job w).1.db.jobs
  unfolding is_cancelled_in_db Db.get_job query
  query-IsLost w l = go w.db.moments l
    where
      go :
          (ms : List Moment)
          → IsLost job (when_read ms w.db).jobs
          → let r = at_moment ms (λ d. (ok (get_job job.id d.jobs), d)) w.db in
            (lost_reply cfg job (wrap (bytes "failed to get job") r.0) ≡ true) × IsLost job r.1.jobs
      go [] l = delivered-IsLost up w.db l
      go (m ∷ ms) l = delivered-IsLost m.link (pass m ms w.db) l

  check_held-LostWhenRead :
      (w : World)
      → LostWhenRead job w.db
      → ((check_held cfg job w).0 ≡ err job_cancelled)
        × LostWhenRead job (check_held cfg job w).1.db
  unfolding check_held
  check_held-LostWhenRead w l =
      let (lost, still) = query-IsLost w l in
      let read = is_cancelled_in_db cfg job w in
      rw lost (refl, IsLost-LostWhenRead job read.1.db still)

  -- The look at the context ends the run, or the look at the job does.
  guard-Halted :
      (v : World) → LostWhenRead job (look cfg job v).1.db → Halted job v (guard cfg job v)
  unfolding guard
  guard-Halted v l = by_look (look cfg job v).0 refl
    where
      by_look :
          (r : Result (Unit {0}))
          → (look cfg job v).0 ≡ r
          → Halted job v (continue r (λ _. check_held cfg job) (look cfg job v).1)
      by_look (err e) known = record {
        error = e;
        is_error = refl;
        still = l;
        quiet = ((look-Quiet job.id cfg job).at v).0;
      }
      by_look (ok u) known =
          let (lost, still) = check_held-LostWhenRead (look cfg job v).1 l in
          record {
            error = job_cancelled;
            is_error = lost;
            still = still;
            quiet =
                ((check_held-Quiet job.id cfg job).at (look cfg job v).1).0
                ∙ ((look-Quiet job.id cfg job).at v).0;
          }

  remainder-Halted :
      (p : Point) (v : World)
      → LostWhenRead job (look cfg job v).1.db
      → Halted job v (remainder p v)
  unfolding run_pipeline detective_stage memory_stage critic_stage diplomat_stage
  remainder-Halted at_detective v l =
      bind-Halted job (detective_stage cfg job) _ v
        (bind-Halted job (guard cfg job) _ v (guard-Halted v l))
  remainder-Halted (at_memory ctx) v l =
      bind-Halted job (memory_stage cfg job) _ v
        (bind-Halted job (guard cfg job) (λ _. look cfg job) v (guard-Halted v l))
  remainder-Halted (at_critic ctx) v l =
      bind-Halted job (critic_stage cfg job ctx) _ v
        (bind-Halted job (guard cfg job) _ v (guard-Halted v l))
  remainder-Halted (at_diplomat r) v l =
      bind-Halted job (diplomat_stage cfg job r.0) _ v
        (bind-Halted job (guard cfg job) _ v (guard-Halted v l))
  remainder-Halted (at_end blob) v l = bind-Halted job (guard cfg job) _ v (guard-Halted v l)

  settle-aborted :
      (e : Error) (w : World) → LostWhenRead job w.db → (settle cfg job (err e) w).0 ≡ aborted
  settle-aborted e w l = elim (Bool-cases (is_canceled e)) [
    | inl c ↦ rw c
    | inr c ↦ let (lost, still) = query-IsLost w l in rw (c, lost)
  ]

  -- A run that comes to a stage, or to the last look at the job after the stages, and has lost the job by
  -- the time that look reads it, since another worker has it by a later claim, or it is completed, failed
  -- or cancelled, is aborted: it neither completes nor fails the job, and sends no review from there on.
  pub process-IsLost :
      (parent : Option Error) (w : World) {p : Point} {v : World}
      → Reaches (record w { ctx_err = parent }) p v
      → LostWhenRead job (look cfg job v).1.db
      → ((process cfg job parent w).0 ≡ aborted) × (posts (process cfg job parent w).1 ≡ posts v)
  unfolding process
  process-IsLost parent w {p} {v} reaches l =
      let s = remainder-Halted p v l in
      let end = (remainder p v).1 in
      rw (Reaches-remainder (record w { ctx_err = parent }) reaches, s.is_error)
        (
          settle-aborted s.error end s.still,
          (settle-Still cfg job (err s.error) end).same ∙ s.quiet,
        )
