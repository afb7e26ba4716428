-- ===== src/Store/Jobs/Lease.antt =====
-- Rows under a lease (internal/store/postgres/store.go): the statements on other rows, and claims.
use agent_frei_igi.Prelude.{
  ℕ, ◌≤◌, ◌≡◌, ◌≢◌, refl, ap, ◌∙◌, Bool, false, Option, none, some, List, [], ◌∷◌, arith, Text, inl,
  inr, ◌==◌, Bool-cases, All,
}
use agent_frei_igi.Domain.{ReviewJob, running}
use agent_frei_igi.Store.Rows.{update_where, first_row-update}
use agent_frei_igi.Store.Jobs.{
  Jobs, beat, complete, fail_row, set_context, set_result, get_job, claimable, oldest, claimed,
  counters_fit, claim_candidate, claim_job, heartbeat_job, complete_job, fail_job,
  update_job_context, update_job_result, owned,
}
use agent_frei_igi.Store.Jobs.Commands.{
  Command, create, supersede, close, claim, heartbeat, finish, give_up, save_context, save_result,
  run, history,
}
use agent_frei_igi.Store.Jobs.Claim.{available}
use agent_frei_igi.Store.Jobs.Keys.{IsKeyed, run-IsKeyed}
use agent_frei_igi.Store.Jobs.Machine.{oldest-get_job, same_row, get_job-id, create_job-get_job}

-- A command that is neither a cancellation, nor a claim after `until`, nor the owner's.
abbrev pub IsForeign : ℕ → ℕ → Command → Type 0
IsForeign id until (create now fresh job) = Unit
IsForeign id until (supersede now inst repo pr except) = ⊥
IsForeign id until (close now inst repo pr) = ⊥
IsForeign id until (claim now locked worker lease) = now ≤ until
IsForeign id until (heartbeat now i gen worker lease) = i ≢ id
IsForeign id until (finish now i gen worker result) = i ≢ id
IsForeign id until (give_up now i gen worker msg) = i ≢ id
IsForeign id until (save_context now i gen worker blob) = i ≢ id
IsForeign id until (save_result now i gen worker blob version) = i ≢ id

pub untouched-get_job :
    (id : ℕ) (p : ReviewJob → Bool) (f : ReviewJob → ReviewJob) (jobs : Jobs) {j : ReviewJob}
    → ((a : ReviewJob) → (f a).id ≡ a.id)
    → get_job id jobs ≡ some j
    → p j ≡ false
    → get_job id (update_where p f jobs) ≡ some j
unfolding get_job
untouched-get_job id p f jobs same found e =
    first_row-update (λ a. a.id == id) p f (λ a. ap (λ (n : ℕ). n == id) (same a)) jobs found ∙ rw e

foreign-owned :
    (id i gen : ℕ) (worker : Text) (j : ReviewJob)
    → j.id ≡ id
    → i ≢ id
    → owned i gen worker j ≡ false
unfolding owned
foreign-owned id i gen worker j e ne = ground arith

leased-unclaimable :
    (now until : ℕ) (j : ReviewJob)
    → j.status ≡ running
    → j.locked_until ≡ some until
    → now ≤ until
    → claimable now j ≡ false
unfolding claimable
leased-unclaimable now until j s u le = ground arith

claim_candidate-spares :
    (now : ℕ) (worker : Text) (lease : ℕ) (p : ReviewJob → Bool) (o : Option ReviewJob) (id : ℕ)
    (jobs : Jobs) {j : ReviewJob}
    → IsKeyed jobs
    → oldest p jobs ≡ o
    → get_job id jobs ≡ some j
    → p j ≡ false
    → get_job id (claim_candidate now worker lease o jobs).1 ≡ some j
unfolding claim_candidate claimed
claim_candidate-spares now worker lease p none id jobs h e found n = found
claim_candidate-spares now worker lease p (some c) id jobs {j} h e found n =
    let (there, chosen) = oldest-get_job p jobs h e in
    elim (Bool-cases (counters_fit c)) [
      | inr stuck ↦ rw stuck found
      | inl fits ↦ elim (Bool-cases (j.id == c.id)) [
        | inl same ↦ cc (same_row id jobs found there same, chosen, n)
        | inr other ↦ rw fits (
            untouched-get_job id (λ a. a.id == c.id) (claimed now worker lease) jobs (λ a. refl)
              found other)
      ]
    ]

-- A claim leaves alone every row that is not claimable at its time.
pub claim_job-spares :
    (locked : ReviewJob → Bool) (now : ℕ) (worker : Text) (lease id : ℕ) (jobs : Jobs)
    {j : ReviewJob}
    → IsKeyed jobs
    → get_job id jobs ≡ some j
    → claimable now j ≡ false
    → get_job id (claim_job locked now worker lease jobs).1 ≡ some j
unfolding claim_job
claim_job-spares locked now worker lease id jobs h found n =
    claim_candidate-spares now worker lease (available now locked) _ id jobs h refl found (rw n)

module _ (id until : ℕ) {j : ReviewJob} (s : j.status ≡ running)
    (u : j.locked_until ≡ some until) where
  run-undisturbed :
      (c : Command) (jobs : Jobs)
      → IsKeyed jobs
      → get_job id jobs ≡ some j
      → IsForeign id until c
      → get_job id (run c jobs) ≡ some j
  unfolding run heartbeat_job complete_job fail_job update_job_context update_job_result
  run-undisturbed (create now fresh job) jobs h found f =
      create_job-get_job fresh now job id jobs found
  run-undisturbed (supersede now inst repo pr except) jobs h found f = absurd f
  run-undisturbed (close now inst repo pr) jobs h found f = absurd f
  run-undisturbed (claim now locked worker lease) jobs h found f =
      claim_job-spares locked now worker lease id jobs h found
        (leased-unclaimable now until j s u f)
  run-undisturbed (heartbeat now i gen worker lease) jobs h found f =
      untouched-get_job id (owned i gen worker) (beat now lease) jobs (λ a. refl) found
        (foreign-owned id i gen worker j (get_job-id id jobs found) f)
  run-undisturbed (finish now i gen worker result) jobs h found f =
      untouched-get_job id (owned i gen worker) (complete now result) jobs (λ a. refl) found
        (foreign-owned id i gen worker j (get_job-id id jobs found) f)
  run-undisturbed (give_up now i gen worker msg) jobs h found f =
      untouched-get_job id (owned i gen worker) (fail_row now msg) jobs (λ a. refl) found
        (foreign-owned id i gen worker j (get_job-id id jobs found) f)
  run-undisturbed (save_context now i gen worker blob) jobs h found f =
      untouched-get_job id (owned i gen worker) (set_context now blob) jobs (λ a. refl) found
        (foreign-owned id i gen worker j (get_job-id id jobs found) f)
  run-undisturbed (save_result now i gen worker blob version) jobs h found f =
      untouched-get_job id (owned i gen worker) (set_result now blob version) jobs (λ a. refl) found
        (foreign-owned id i gen worker j (get_job-id id jobs found) f)

-- In a table whose keys are unique, while its lease runs, a running row is not touched by claims of any
-- worker, by new jobs, or by the statements on other jobs, cancellations apart.
pub lease_holds :
    (cs : List Command) (id until : ℕ) (jobs : Jobs) {j : ReviewJob}
    → IsKeyed jobs
    → get_job id jobs ≡ some j
    → j.status ≡ running
    → j.locked_until ≡ some until
    → All (IsForeign id until) cs
    → get_job id (history cs jobs) ≡ some j
unfolding history
lease_holds [] id until jobs h found s u f = found
lease_holds (c ∷ cs) id until jobs h found s u f =
    lease_holds cs id until (run c jobs) (run-IsKeyed c jobs h)
      (run-undisturbed id until s u c jobs h found f.0) s u f.1
