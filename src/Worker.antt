-- ===== src/Worker.antt =====
-- internal/worker/worker.go and internal/worker/pipeline.go: one worker's run of a job. Heartbeats and
-- the shutdown of the process take effect where the pipeline looks at its context.
mod Quiet
pub mod Once
pub mod Overlap
pub mod Held
pub mod Lost
pub mod Success
pub mod Loop
pub mod Silent
pub mod Stop
use agent_frei_igi.Prelude.{
  ℕ, Bool, true, false, ◌||◌, not, Text, bytes, text_eq, Option, none, some, List, [], ◌∷◌, Result,
  ok, err, Error, canceled, job_cancelled, is_canceled, error_text, Action, pure, fail, wrapping,
  wrap, ◌>>=◌, ◌>>◌, get_or_else, if◌then◌else◌, ◌==◌,
}
use agent_frei_igi.Domain.{ReviewJob, JobStatus, ReviewContext, is_running, cancelled}
use agent_frei_igi.Store.Db
use agent_frei_igi.World.{World, Signal, tick, shutdown, on_db}
use agent_frei_igi.Detective.Build.{DetectiveConfig, build}
use agent_frei_igi.Critic.{ReviewResult}
use agent_frei_igi.Critic.Review.{Reviewer, review}
use agent_frei_igi.Diplomat.Publish.{PublisherConfig, publish}

-- Worker, with json.Marshal of the two results, and the rows that ClaimJob finds locked
pub record WorkerConfig : Type 0 where
  pub worker_id : Text
  pub worker_lease : ℕ
  pub detective : DetectiveConfig
  pub critic : Reviewer
  pub diplomat : PublisherConfig
  pub marshal_context : ReviewContext → Result Text
  pub marshal_result : ReviewResult → Result Text
  pub locked : ReviewJob → Bool

-- The heartbeat routine cancels the job's context where the lease is not renewed.
abbrev pub beaten : Result Bool → Option Error
beaten (ok true) = none
beaten _ = some canceled

abbrev pub context_error : Option Error → Action World (Unit {0})
context_error none = pure tt
context_error (some e) = fail e

abbrev pub is_cancelled : JobStatus → Bool
is_cancelled cancelled = true
is_cancelled _ = false

abbrev pub refuse_if : Bool → Action World (Unit {0})
refuse_if true = fail job_cancelled
refuse_if false = pure tt

module _ {A : Type 0} where
  abbrev pub lift : Result A → Action World A
  lift r w = (r, w)

-- How `process` ends, with the answer of the last statement, which is only logged.
pub data Outcome : Type 0 where
  aborted : Outcome
  gave_up finished : Text → Result (Unit {0}) → Outcome

module _ (cfg : WorkerConfig) (job : ReviewJob) where
  -- The routine has ended once the context is done.
  abbrev pub signalled : Option Error → Signal → World → World
  signalled (some e) s w = w
  signalled none tick w =
      let (r, w') =
        on_db (Db.heartbeat_job job.id job.lock_generation cfg.worker_id cfg.worker_lease) w in
      record w' { ctx_err = beaten r }
  signalled none shutdown w = record w { ctx_err = some canceled }

  unfoldable pub signals_pass : List Signal → World → World
  signals_pass [] w = w
  signals_pass (s ∷ ss) w = signals_pass ss (signalled w.ctx_err s w)

  abbrev pub after_batch : List (List Signal) → World → World
  after_batch [] w = w
  after_batch (batch ∷ later) w = signals_pass batch (record w { signals = later })

  -- ctx.Err(), after the signals that came since the last look
  unfoldable pub look : Action World (Unit {0})
  look w = let w' = after_batch w.signals w in context_error w'.ctx_err w'

  abbrev pub lost_row : ReviewJob → Bool
  lost_row row =
      if is_cancelled row.status
      then true
      else not (is_running row.status)
        || not (get_or_else false row.locked_by (λ holder. text_eq holder cfg.worker_id))
        || not (row.lock_generation == job.lock_generation)

  abbrev pub lost_reply : Result (Option ReviewJob) → Bool
  lost_reply (err e) = true
  lost_reply (ok none) = true
  lost_reply (ok (some row)) = lost_row row

  -- isCancelledInDB
  unfoldable pub is_cancelled_in_db : World → Bool × World
  is_cancelled_in_db w = let (r, w') = on_db (Db.get_job job.id) w in (lost_reply r, w')

  unfoldable pub check_held : Action World (Unit {0})
  check_held w = let (lost, w') = is_cancelled_in_db w in refuse_if lost w'

  -- The two checks before each stage.
  unfoldable pub guard : Action World (Unit {0})
  guard = look >> check_held

  unfoldable pub detective_stage : Action World ReviewContext
  detective_stage = do
    guard
    ctx ← wrapping (bytes "detective stage failed") (build cfg.detective job)
    blob ← lift (wrap (bytes "failed to marshal review context") (cfg.marshal_context ctx))
    wrapping (bytes "failed to save review context")
        (on_db (Db.update_job_context job.id job.lock_generation cfg.worker_id (some blob)))
    pure ctx

  -- A stub: the checks, and a wait that the context's end cuts short.
  unfoldable pub memory_stage : Action World (Unit {0})
  memory_stage = guard >> look

  unfoldable pub critic_stage : ReviewContext → Action World (ReviewResult × Text)
  critic_stage ctx = do
    guard
    result ← lift (wrap (bytes "critic stage failed") (review cfg.critic ctx))
    blob ← lift (wrap (bytes "failed to marshal critic result") (cfg.marshal_result result))
    wrapping (bytes "failed to save critic result") (
        on_db (
          Db.update_job_result job.id job.lock_generation cfg.worker_id (some blob)
            result.prompt_version))
    pure (result, blob)

  unfoldable pub diplomat_stage : ReviewResult → Action World (Unit {0})
  diplomat_stage result = do
    guard
    wrapping (bytes "diplomat stage failed") (publish cfg.diplomat job result)

  -- runPipeline
  unfoldable pub run_pipeline : Action World Text
  run_pipeline = do
    ctx ← detective_stage
    memory_stage
    reviewed ← critic_stage ctx
    diplomat_stage reviewed.0
    guard
    pure reviewed.1

  abbrev pub abort_or_fail : Bool → Error → World → Outcome × World
  abort_or_fail true e w = (aborted, w)
  abort_or_fail false e w =
      let (r, w') = on_db (Db.fail_job job.id job.lock_generation cfg.worker_id (error_text e)) w in
      (gave_up (error_text e) r, w')

  abbrev pub settle : Result Text → World → Outcome × World
  settle (ok blob) w =
      let (r, w') =
        on_db (Db.complete_job job.id job.lock_generation cfg.worker_id (some blob)) w in
      (finished blob r, w')
  settle (err e) w =
      if is_canceled e
      then (aborted, w)
      else let (lost, w') = is_cancelled_in_db w in abort_or_fail lost e w'

  -- process; `parent` is the state of the context that the job's context is made from.
  unfoldable pub process : Option Error → World → Outcome × World
  process parent w = let (r, w') = run_pipeline (record w { ctx_err = parent }) in settle r w'

-- What pollAndProcess does with the reply of ClaimJob.
abbrev pub run_claimed :
    WorkerConfig → Option Error → Result (Option ReviewJob) → World → Option Outcome × World
run_claimed cfg parent (err e) w = (none, w)
run_claimed cfg parent (ok none) w = (none, w)
run_claimed cfg parent (ok (some job)) w =
    let (outcome, w') = process cfg job parent w in (some outcome, w')

-- pollAndProcess
unfoldable pub poll_and_process : WorkerConfig → Option Error → World → Option Outcome × World
poll_and_process cfg parent w =
    let (r, w') = on_db (Db.claim_job cfg.locked cfg.worker_id cfg.worker_lease) w in
    run_claimed cfg parent r w'
