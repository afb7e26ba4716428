-- ===== src/Main/Worker/Dry.antt =====
-- A worker that `agent-frei worker` (cmd/agent-frei/main.go) starts: what it needs to publish reviews.
use agent_frei_igi.Prelude.{
  ◌≡◌, refl, ap, ◌∙◌, false, bytes, text_eq, Option, List, Result, ok, err, Error,
}
use agent_frei_igi.World.{World}
use agent_frei_igi.Config.{Config, Host, load}
use agent_frei_igi.Config.Flags.{load-publish_comments}
use agent_frei_igi.Diplomat.Publish.Quiet.{posts}
use agent_frei_igi.Worker.{WorkerConfig}
use agent_frei_igi.Worker.Loop.{LoopEvent, run_loop}
use agent_frei_igi.Worker.Silent.{run_loop-silent}
use agent_frei_igi.Main.{Outside, required_store}
use agent_frei_igi.Main.Worker.{new_worker, publisher_config, with_store, run_worker}

with_store-ok :
    (x : Outside) (cfg : Config) (r : Result (Unit {0})) {wc : WorkerConfig}
    → with_store x cfg r ≡ ok wc
    → wc ≡ new_worker x cfg
with_store-ok x cfg (ok u) h = cc
with_store-ok x cfg (err e) h = cc

run_worker-dry :
    (h : Host) (x : Outside) (loaded : Result Config) {wc : WorkerConfig}
    → load h ≡ loaded
    → run_worker x loaded ≡ ok wc
    → wc.diplomat.publish_comments ≡ text_eq (h.getenv (bytes "FF_PUBLISH_COMMENTS")) (bytes "true")
unfolding run_worker new_worker publisher_config
run_worker-dry h x (err e) l r = cc
run_worker-dry h x (ok cfg) l r =
    ap (λ (c : WorkerConfig). c.diplomat.publish_comments)
      (with_store-ok x cfg (required_store x cfg) r)
    ∙ load-publish_comments h l

-- Unless FF_PUBLISH_COMMENTS is the text `true`, a worker that was started sends no review, however
-- often it polls, whatever jobs it finds, and whatever fails.
pub started-silent :
    (h : Host) (x : Outside) {wc : WorkerConfig}
    → run_worker x (load h) ≡ ok wc
    → text_eq (h.getenv (bytes "FF_PUBLISH_COMMENTS")) (bytes "true") ≡ false
    → (e : Option Error) (events : List LoopEvent) (w : World)
    → posts (run_loop wc e events w) ≡ posts w
started-silent h x {wc} started off e events w =
    run_loop-silent wc (run_worker-dry h x (load h) refl started ∙ off) e events w
