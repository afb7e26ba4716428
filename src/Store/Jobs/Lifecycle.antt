-- ===== src/Store/Jobs/Lifecycle.antt =====
-- The life of one row of `review_jobs` under the statements of internal/store/postgres/store.go, as a
-- state machine that is stated by the columns.
use agent_frei_igi.Prelude.{
  ℕ, ◌+◌, ◌≡◌, ◌≢◌, ◌⊎◌, ◌↔◌, inl, inr, refl, ap, ◌∙◌, Bool, true, false, not, ◌&&◌, none, some,
  List, [], ◌∷◌, Text, Bool-cases, ◌==◌, and-true, Option-cases,
}
use agent_frei_igi.Domain.{ReviewJob, cancelled, completed, failed}
use agent_frei_igi.Store.Rows.{update_where, first_row-update}
use agent_frei_igi.Store.Jobs.{
  Jobs, cancel, beat, complete, fail_row, set_context, set_result, get_job, cancel_jobs_for_pr,
  cancel_open_jobs_for_pr, oldest, claimable, claimed, counters_fit, claim_job, heartbeat_job,
  complete_job, fail_job, update_job_context, update_job_result, open_for_pr, superseded, owned,
}
use agent_frei_igi.Store.Jobs.Commands.{
  Command, create, supersede, close, claim, heartbeat, finish, give_up, save_context, save_result,
  run, history,
}
use agent_frei_igi.Store.Jobs.Keys.{IsKeyed, run-IsKeyed}
use agent_frei_igi.Store.Jobs.Machine.{Becomes, oldest-get_job, same_row, create_job-get_job}
use agent_frei_igi.Store.Jobs.Columns.{
  IsClaimed, claimed-IsClaimed, CanClaim, claimable-CanClaim, IsHeld, owned-IsHeld, IsOpenFor,
  open_for_pr-IsOpenFor, superseded-IsOpenFor,
}

-- `j` meets the condition and became `after`, or it does not and stayed.
abbrev Updates : Type 0 → ReviewJob → ReviewJob → ReviewJob → Type 0
Updates meets after j k = (meets × (k ≡ after)) ⊎ ((meets → ⊥) × (k ≡ j))

-- What one statement makes of the row `j`.
abbrev pub Step : Command → ReviewJob → ReviewJob → Type 0
Step (create now fresh job) j k = k ≡ j
Step (supersede now inst repo pr except) j k =
    Updates (IsOpenFor inst repo pr j × (j.head_sha ≢ except))
      (record j { status = cancelled; updated_at = now }) j k
Step (close now inst repo pr) j k =
    Updates (IsOpenFor inst repo pr j) (record j { status = cancelled; updated_at = now }) j k
Step (claim now locked worker lease) j k =
    (CanClaim now j × (locked j ≡ false) × IsClaimed now worker lease j k) ⊎ (k ≡ j)
Step (heartbeat now id gen worker lease) j k =
    Updates (IsHeld id gen worker j)
      (record j { locked_until = some (now + lease); updated_at = now }) j k
Step (finish now id gen worker result) j k =
    Updates (IsHeld id gen worker j)
      (record j {
        status = completed;
        result_blob = result;
        locked_by = none;
        locked_until = none;
        updated_at = now;
      })
      j k
Step (give_up now id gen worker msg) j k =
    Updates (IsHeld id gen worker j)
      (record j {
        status = failed;
        last_error = some msg;
        locked_by = none;
        locked_until = none;
        updated_at = now;
      })
      j k
Step (save_context now id gen worker blob) j k =
    Updates (IsHeld id gen worker j) (record j { context_blob = blob; updated_at = now }) j k
Step (save_result now id gen worker blob version) j k =
    Updates (IsHeld id gen worker j)
      (record j { result_blob = blob; prompt_version = some version; updated_at = now }) j k

-- A path of the machine, one step for each statement.
abbrev pub Follows : List Command → ReviewJob → ReviewJob → Type 0
Follows [] j k = k ≡ j
Follows (c ∷ cs) j k = (i : ReviewJob) × Step c j i × Follows cs i k

claimed-same_id :
    (now : ℕ) (worker : Text) (lease id : ℕ) (a : ReviewJob)
    → ((claimed now worker lease a).id == id) ≡ (a.id == id)
unfolding claimed
claimed-same_id now worker lease id a = refl

not-true : (b : Bool) → not b ≡ true → b ≡ false
not-true true h = cc
not-true false h = refl

module _ {j : ReviewJob} (id : ℕ) (jobs : Jobs) (found : get_job id jobs ≡ some j) where
  update-Updates :
      (p : ReviewJob → Bool) (f : ReviewJob → ReviewJob) {M : Type 0}
      → ((a : ReviewJob) → (f a).id ≡ a.id)
      → ((p j ≡ true) ↔ M)
      → Becomes (Updates M (f j) j) id (update_where p f jobs)
  unfolding get_job
  update-Updates p f same iff =
      let found' =
        first_row-update (λ a. a.id == id) p f (λ a. ap (λ (n : ℕ). n == id) (same a)) jobs found in
      elim (Bool-cases (p j)) [
        | inl e ↦ (f j, found' ∙ rw e, inl (iff.0 e, refl))
        | inr e ↦ (j, found' ∙ rw e, inr (λ m. cc (e, iff.1 m), refl))
      ]

  claim-Step :
      (now : ℕ) (locked : ReviewJob → Bool) (worker : Text) (lease : ℕ)
      → IsKeyed jobs
      → Becomes
          (Step (claim now locked worker lease) j)
          id
          (claim_job locked now worker lease jobs).1
  unfolding claim_job get_job
  claim-Step now locked worker lease keyed =
      elim (Option-cases (oldest (λ a. claimable now a && not (locked a)) jobs)) [
        | inl nothing ↦ rw nothing (j, found, inr refl)
        | inr (c, chosen) ↦
            let (there, waits) =
              oldest-get_job (λ a. claimable now a && not (locked a)) jobs keyed chosen in
            elim (Bool-cases (counters_fit c)) [
              | inr stuck ↦ rw (chosen, stuck) (j, found, inr refl)
              | inl fits ↦
                  let found' =
                    first_row-update (λ a. a.id == id) (λ a. a.id == c.id)
                      (claimed now worker lease) (claimed-same_id now worker lease id) jobs found in
                  elim (Bool-cases (j.id == c.id)) [
                    | inr other ↦ rw (chosen, fits) (j, found' ∙ rw other, inr refl)
                    | inl same ↦
                        let j≡c : j ≡ c = same_row id jobs found there same in
                        let (free, allowed) = and-true (claimable now c) (not (locked c)) waits in
                        rw (chosen, fits)
                          (
                            claimed now worker lease j,
                            found' ∙ rw same,
                            inl (
                              claimable-CanClaim now j (rw j≡c free),
                              rw j≡c (not-true (locked c) allowed),
                              claimed-IsClaimed now worker lease j,
                            ),
                          )
                  ]
            ]
      ]

  run-Step : (c : Command) → IsKeyed jobs → Becomes (Step c j) id (run c jobs)
  unfolding run cancel_jobs_for_pr cancel_open_jobs_for_pr heartbeat_job complete_job fail_job
      update_job_context update_job_result
  run-Step (create now fresh job) keyed = (j, create_job-get_job fresh now job id jobs found, refl)
  run-Step (supersede now inst repo pr except) keyed =
      update-Updates (superseded inst repo pr except) (cancel now) (λ a. refl)
        (superseded-IsOpenFor inst repo pr except j)
  run-Step (close now inst repo pr) keyed =
      update-Updates (open_for_pr inst repo pr) (cancel now) (λ a. refl)
        (open_for_pr-IsOpenFor inst repo pr j)
  run-Step (claim now locked worker lease) keyed = claim-Step now locked worker lease keyed
  run-Step (heartbeat now i gen worker lease) keyed =
      update-Updates (owned i gen worker) (beat now lease) (λ a. refl) (owned-IsHeld i gen worker j)
  run-Step (finish now i gen worker result) keyed =
      update-Updates (owned i gen worker) (complete now result) (λ a. refl)
        (owned-IsHeld i gen worker j)
  run-Step (give_up now i gen worker msg) keyed =
      update-Updates (owned i gen worker) (fail_row now msg) (λ a. refl)
        (owned-IsHeld i gen worker j)
  run-Step (save_context now i gen worker blob) keyed =
      update-Updates (owned i gen worker) (set_context now blob) (λ a. refl)
        (owned-IsHeld i gen worker j)
  run-Step (save_result now i gen worker blob version) keyed =
      update-Updates (owned i gen worker) (set_result now blob version) (λ a. refl)
        (owned-IsHeld i gen worker j)

-- In a table whose keys are unique, whatever statements any processes run in any order, a row stays in
-- the table, and each statement takes it along a step of the state machine: an update changes the named
-- columns exactly if its whole condition holds of the row, and a claim takes only a row that can be
-- claimed and that no other transaction locks.
pub history-Follows :
    (cs : List Command) (id : ℕ) (jobs : Jobs) {j : ReviewJob}
    → IsKeyed jobs
    → get_job id jobs ≡ some j
    → Becomes (Follows cs j) id (history cs jobs)
unfolding history
history-Follows [] id jobs {j} keyed found = (j, found, refl)
history-Follows (c ∷ cs) id jobs keyed found =
    let (i, found', step) = run-Step id jobs found c keyed in
    let (k, there, path) = history-Follows cs id (run c jobs) (run-IsKeyed c jobs keyed) found' in
    (k, there, (i, step, path))
