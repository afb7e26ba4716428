-- ===== src/Examples/Jobs.antt =====
-- The job table at concrete inputs.
use agent_frei_igi.Prelude.{◌≡◌, refl, bytes, none, some, inl, List, [], ◌∷◌, arith}
use agent_frei_igi.Domain.{ReviewJob}
use agent_frei_igi.Store.Jobs.{get_job, claim_job, claimable, claimed, oldest, counters_fit}
use agent_frei_igi.Store.Jobs.Commands.{Command, claim, finish, create, heartbeat, history}
use agent_frei_igi.Store.Jobs.Keys.{IsKeyed, history-IsKeyed}
use agent_frei_igi.Store.Jobs.Machine.{Becomes}
use agent_frei_igi.Store.Jobs.Lifecycle.{Follows, history-Follows}
use agent_frei_igi.Store.Jobs.Fencing.{Refuses, stale-Refuses, terminal_final}
use agent_frei_igi.Store.Jobs.Claim.{Takes, claim_job-Takes}
use agent_frei_igi.Store.Jobs.Drain.{claim_each}
use agent_frei_igi.Store.Jobs.Served.{HandedOut, waiting-HandedOut}
use agent_frei_igi.Store.Jobs.Lease.{lease_holds}
use agent_frei_igi.Examples.Fixtures.{worker, waiting, held, retaken, finished_job, never_locked}

abbrev a_run : List Command
a_run =
    claim 10 never_locked worker 100 ∷ heartbeat 20 1 1 worker 100 ∷ finish 30 1 1 worker none ∷ []

IsKeyed-one : (j : ReviewJob) → IsKeyed (j ∷ [])
IsKeyed-one j = (refl, tt)

history-Follows_example : Becomes (Follows a_run waiting) 1 (history a_run (waiting ∷ []))
unfolding get_job
history-Follows_example =
    history-Follows a_run 1 (waiting ∷ []) {j = waiting} (IsKeyed-one waiting) refl

stale-Refuses_example : Refuses 1 1 worker (history a_run (retaken ∷ []))
unfolding get_job
stale-Refuses_example =
    stale-Refuses a_run 1 1 worker (retaken ∷ []) {j = retaken} (IsKeyed-one retaken) refl
      (omega arith)

terminal_final_example : get_job 1 (history a_run (finished_job ∷ [])) ≡ some finished_job
unfolding get_job
terminal_final_example =
    terminal_final a_run 1 (finished_job ∷ []) {j = finished_job} (IsKeyed-one finished_job) refl
      refl

history-IsKeyed_example : IsKeyed (history a_run (waiting ∷ []))
history-IsKeyed_example = history-IsKeyed a_run (waiting ∷ []) (IsKeyed-one waiting)

claim_job-Takes_example :
    (j : ReviewJob) × Takes never_locked 10 worker 100
      (waiting ∷ [])
      j
      (claimed 10 worker 100 waiting)
unfolding claim_job claimable claimed oldest counters_fit
claim_job-Takes_example =
    claim_job-Takes never_locked 10 worker 100 (waiting ∷ []) {k = claimed 10 worker 100 waiting}
      (IsKeyed-one waiting) refl

lease_holds_example :
    get_job 1
      (history (claim 50 never_locked (bytes "w2") 100 ∷ create 60 9 waiting ∷ []) (held ∷ []))
    ≡ some held
unfolding get_job
lease_holds_example =
    lease_holds (claim 50 never_locked (bytes "w2") 100 ∷ create 60 9 waiting ∷ []) 1 100
      (held ∷ []) {j = held} (IsKeyed-one held) refl refl refl (omega arith, (tt, tt))

waiting-HandedOut_example :
    HandedOut 10 100
      (worker ∷ bytes "w2" ∷ [])
      1
      waiting
      (claim_each never_locked 10 100 (worker ∷ bytes "w2" ∷ []) (waiting ∷ []))
unfolding get_job claimable counters_fit
waiting-HandedOut_example =
    waiting-HandedOut never_locked 10 100 (worker ∷ bytes "w2" ∷ []) 1 waiting (waiting ∷ [])
      (IsKeyed-one waiting) ((λ waits. refl), tt) refl (inl refl) refl (omega arith)
