-- ===== src/Worker/Stop.antt =====
-- A worker (internal/worker) that is told to shut down while it has a job.
use agent_frei_igi.Prelude.{
  ◌≡◌, refl, ap, ◌∙◌, ◌⊎◌, inl, inr, Bool, true, false, Option, none, some, List, [], ◌∷◌, Result,
  ok, err, Error, canceled,
}
use agent_frei_igi.Domain.{ReviewJob}
use agent_frei_igi.Store.Db
use agent_frei_igi.World.{World, Signal, tick, shutdown, on_db}
use agent_frei_igi.Worker.{
  WorkerConfig, beaten, signalled, signals_pass, after_batch, look, guard, detective_stage,
  run_pipeline, process, aborted,
}

abbrev pub has_shutdown : List Signal → Bool
has_shutdown [] = false
has_shutdown (tick ∷ ss) = has_shutdown ss
has_shutdown (shutdown ∷ ss) = true

-- The context goes on, or was cancelled.
abbrev pub IsPlain : Option Error → Type 0
IsPlain e = (e ≡ none) ⊎ (e ≡ some canceled)

beaten-IsPlain : (r : Result Bool) → IsPlain (beaten r)
beaten-IsPlain (ok true) = inl refl
beaten-IsPlain (ok false) = inr refl
beaten-IsPlain (err e) = inr refl

module _ (cfg : WorkerConfig) (job : ReviewJob) where
  signalled-done :
      (e : Option Error) (s : Signal) (w : World)
      → w.ctx_err ≡ e
      → e ≡ some canceled
      → (signalled cfg job e s w).ctx_err ≡ some canceled
  signalled-done none s w same done = cc
  signalled-done (some e) s w same done = same ∙ done

  ticked-IsPlain :
      (e : Option Error) (w : World)
      → w.ctx_err ≡ e
      → IsPlain e
      → IsPlain (signalled cfg job e tick w).ctx_err
  ticked-IsPlain none w same plain =
      beaten-IsPlain
        (on_db (Db.heartbeat_job job.id job.lock_generation cfg.worker_id cfg.worker_lease) w).0
  ticked-IsPlain (some e) w same plain = rw same plain

  shut-done :
      (e : Option Error) (w : World)
      → w.ctx_err ≡ e
      → IsPlain e
      → (signalled cfg job e shutdown w).ctx_err ≡ some canceled
  shut-done none w same plain = refl
  shut-done (some e) w same (inl never) = cc
  shut-done (some e) w same (inr done) = same ∙ done

  -- A context that was cancelled stays so.
  passes-done :
      (ss : List Signal) (w : World)
      → w.ctx_err ≡ some canceled
      → (signals_pass cfg job ss w).ctx_err ≡ some canceled
  unfolding signals_pass
  passes-done [] w e = e
  passes-done (s ∷ ss) w e =
      passes-done ss (signalled cfg job w.ctx_err s w) (signalled-done w.ctx_err s w refl e)

  passes-shutdown :
      (ss : List Signal) (w : World)
      → IsPlain w.ctx_err
      → has_shutdown ss ≡ true
      → (signals_pass cfg job ss w).ctx_err ≡ some canceled
  unfolding signals_pass
  passes-shutdown [] w e h = cc
  passes-shutdown (tick ∷ ss) w e h =
      passes-shutdown ss (signalled cfg job w.ctx_err tick w) (ticked-IsPlain w.ctx_err w refl e) h
  passes-shutdown (shutdown ∷ ss) w e h =
      passes-done ss (signalled cfg job w.ctx_err shutdown w) (shut-done w.ctx_err w refl e)

  -- What was sent or written before the first look is that of the heartbeats.
  stopped :
      (w : World)
      → (after_batch cfg job w.signals w).ctx_err ≡ some canceled
      → run_pipeline cfg job w ≡ (err canceled, after_batch cfg job w.signals w)
  unfolding run_pipeline detective_stage guard look
  stopped w done = rw done refl

-- A run of which the first look at the context finds that a shutdown was signalled is aborted: its job
-- is neither completed nor failed, and only the heartbeats before the shutdown have touched the database.
pub shutdown_aborts :
    (cfg : WorkerConfig) (job : ReviewJob) (w : World) (batch : List Signal)
    (later : List (List Signal))
    → w.signals ≡ batch ∷ later
    → has_shutdown batch ≡ true
    → process cfg job none w
      ≡ (aborted, signals_pass cfg job batch (record w { ctx_err = none; signals = later }))
unfolding process
shutdown_aborts cfg job w batch later signals shut =
    let started = record w { ctx_err = none } in
    let passed = ap (λ (bs : List (List Signal)). after_batch cfg job bs started) signals in
    let done =
      ap (λ (v : World). v.ctx_err) passed
      ∙ passes-shutdown cfg job batch (record w { ctx_err = none; signals = later }) (inl refl)
          shut in
    rw (stopped cfg job started done) (ap (λ (v : World). (aborted, v)) passed)
