-- ===== src/Worker/Loop.antt =====
-- internal/worker/worker.go: runLoop, and how many loops Start spawns. A loop's ticker and the end of
-- its context are the events that its select receives; Go chooses freely where both are ready.
use agent_frei_igi.Prelude.{◌≡◌, refl, Option, List, [], ◌∷◌, ◌++◌, Error}
use agent_frei_igi.World.{World}
use agent_frei_igi.Worker.{WorkerConfig, poll_and_process}

-- `ticked e`: the ticker was chosen, when the context's error was `e`.
pub data LoopEvent : Type 0 where
  ticked : Option Error → LoopEvent
  done : LoopEvent

-- The `for` loop.
unfoldable pub select_loop : WorkerConfig → List LoopEvent → World → World
select_loop cfg [] w = w
select_loop cfg (done ∷ events) w = w
select_loop cfg (ticked e ∷ events) w = select_loop cfg events (poll_and_process cfg e w).1

-- runLoop; `e` is the context's error at the first poll.
unfoldable pub run_loop : WorkerConfig → Option Error → List LoopEvent → World → World
run_loop cfg e events w = select_loop cfg events (poll_and_process cfg e w).1

-- A loop that sees the end of its context returns: what its ticker sends later is not polled.
pub select_loop-done :
    (cfg : WorkerConfig) (before after : List LoopEvent) (w : World)
    → select_loop cfg (before ++ done ∷ after) w ≡ select_loop cfg before w
unfolding select_loop
select_loop-done cfg [] after w = refl
select_loop-done cfg (done ∷ before) after w = refl
select_loop-done cfg (ticked e ∷ before) after w =
    select_loop-done cfg before after (poll_and_process cfg e w).1
