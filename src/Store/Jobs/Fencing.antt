-- ===== src/Store/Jobs/Fencing.antt =====
-- Ownership of a row of `review_jobs`: the lock generation, and the terminal statuses.
use Prim.Native.String.{String}
use agent_frei_igi.Prelude.{
  ℕ, ◌≤◌, ◌<◌, ◌≡◌, refl, ap, ◌∙◌, Bool, true, false, Option, some, List, [], ◌∷◌, arith, Text, inl,
  inr, Result, ◌==◌, bytes, err, message, if◌then◌else◌, Bool-cases,
}
use agent_frei_igi.Domain.{ReviewJob, JobStatus, running, completed, failed, cancelled}
use agent_frei_igi.Store.Rows.{rows_where, rows_where-zero, any_row}
use agent_frei_igi.Store.Jobs.{
  Jobs, beat, complete, fail_row, set_context, set_result, conflicts, get_job, claimable, claimed,
  heartbeat_job, complete_job, fail_job, update_job_context, update_job_result, owned,
}
use agent_frei_igi.Store.Jobs.Commands.{Command, history}
use agent_frei_igi.Store.Jobs.Keys.{IsKeyed, history-IsKeyed}
use agent_frei_igi.Store.Jobs.Machine.{
  Change, untouched, cancelled_at, claimed_at, renewed, completed_at, failed_at, context_saved,
  result_saved, Life, born, then_changed, history-Becomes,
}

Change-generation : {j k : ReviewJob} → Change j k → j.lock_generation ≤ k.lock_generation
unfolding claimed
Change-generation (untouched e) = ground arith
Change-generation (cancelled_at now o e) = ground arith
Change-generation (claimed_at now worker lease c f e) = ground arith
Change-generation (renewed now gen worker lease o e) = ground arith
Change-generation (completed_at now gen worker result o e) = ground arith
Change-generation (failed_at now gen worker msg o e) = ground arith
Change-generation (context_saved now gen worker blob o e) = ground arith
Change-generation (result_saved now gen worker blob version o e) = ground arith

pub Life-generation : {j k : ReviewJob} → Life j k → j.lock_generation ≤ k.lock_generation
Life-generation born = omega arith
Life-generation (then_changed l c) = omega (arith, Life-generation l, Change-generation c)

-- In a table with unique keys no row is owned under an id whose one row is not.
not_owned_elsewhere :
    (id gen : ℕ) (worker : Text) (j : ReviewJob) (js : Jobs)
    → any_row (conflicts j) js ≡ false
    → (j.id == id) ≡ true
    → rows_where (owned id gen worker) js ≡ 0
unfolding owned conflicts
not_owned_elsewhere id gen worker j [] h e = refl
not_owned_elsewhere id gen worker j (k ∷ js) h e =
    ground (arith, not_owned_elsewhere id gen worker j js)

not_owned_other :
    (id gen : ℕ) (worker : Text) (k : ReviewJob)
    → (k.id == id) ≡ false
    → owned id gen worker k ≡ false
unfolding owned
not_owned_other id gen worker k h = rw h

-- The affected rows of a fenced statement: the one row of its id, if that is owned.
pub rows_owned :
    (id gen : ℕ) (worker : Text) (jobs : Jobs) {j : ReviewJob}
    → IsKeyed jobs
    → get_job id jobs ≡ some j
    → rows_where (owned id gen worker) jobs ≡ (if owned id gen worker j then 1 else 0)
unfolding get_job
rows_owned id gen worker [] h found = cc
rows_owned id gen worker (k ∷ js) {j} h found = elim (Bool-cases (k.id == id)) [
  | inl here ↦ ground (arith, not_owned_elsewhere id gen worker k js h.0 here)
  | inr later ↦
      rw (not_owned_other id gen worker k later)
        (omega (arith, rows_owned id gen worker js h.1 (rw later at found)))
]

owned_status :
    (id gen : ℕ) (worker : Text) (j : ReviewJob)
    → owned id gen worker j ≡ true
    → (j.status ≡ running) × (j.lock_generation ≡ gen)
unfolding owned
owned_status id gen worker j h = ground arith

abbrev lost : String → Result (Unit {0})
lost m = err (message (bytes m))

-- What the five fenced statements answer, and do to the table, where they are refused.
pub record Refuses (id gen : ℕ) (worker : Text) (jobs : Jobs) : Type 0 where
  pub heartbeat : (now lease : ℕ) → heartbeat_job now id gen worker lease jobs ≡ (false, jobs)
  pub complete :
      (now : ℕ) (result : Option Text)
      → complete_job now id gen worker result jobs
        ≡ (lost "failed to complete job: lost ownership or job not running", jobs)
  pub fail :
      (now : ℕ) (msg : Text)
      → fail_job now id gen worker msg jobs
        ≡ (lost "failed to fail job: lost ownership or job not running", jobs)
  pub context :
      (now : ℕ) (blob : Option Text)
      → update_job_context now id gen worker blob jobs
        ≡ (lost "failed to update job context: lost ownership or job not running", jobs)
  pub result :
      (now : ℕ) (blob : Option Text) (version : Text)
      → update_job_result now id gen worker blob version jobs
        ≡ (lost "failed to update job result: lost ownership or job not running", jobs)

unowned-Refuses :
    (id gen : ℕ) (worker : Text) (jobs : Jobs)
    → rows_where (owned id gen worker) jobs ≡ 0
    → Refuses id gen worker jobs
unfolding heartbeat_job complete_job fail_job update_job_context update_job_result
unowned-Refuses id gen worker jobs z =
    let same = λ (f : ReviewJob → ReviewJob). rows_where-zero (owned id gen worker) f jobs z in
    record {
      heartbeat = λ now lease. rw (z, same (beat now lease));
      complete = λ now result. rw (z, same (complete now result));
      fail = λ now msg. rw (z, same (fail_row now msg));
      context = λ now blob. rw (z, same (set_context now blob));
      result = λ now blob version. rw (z, same (set_result now blob version));
    }

pub other-Refuses :
    (id gen : ℕ) (worker : Text) (jobs : Jobs) {j : ReviewJob}
    → IsKeyed jobs
    → get_job id jobs ≡ some j
    → owned id gen worker j ≡ false
    → Refuses id gen worker jobs
other-Refuses id gen worker jobs h found e =
    unowned-Refuses id gen worker jobs (rows_owned id gen worker jobs h found ∙ rw e)

stale-owned :
    (id gen : ℕ) (worker : Text) (j : ReviewJob)
    → gen < j.lock_generation
    → owned id gen worker j ≡ false
unfolding owned
stale-owned id gen worker j h = ground arith

-- In a table whose keys are unique, once the generation of a job has passed a worker's, every
-- heartbeat, completion, failure and blob update under the old generation is refused and writes
-- nothing, after any statements of anybody.
pub stale-Refuses :
    (cs : List Command) (id gen : ℕ) (worker : Text) (jobs : Jobs) {j : ReviewJob}
    → IsKeyed jobs
    → get_job id jobs ≡ some j
    → gen < j.lock_generation
    → Refuses id gen worker (history cs jobs)
stale-Refuses cs id gen worker jobs h found lt =
    let (k, found', life) = history-Becomes cs id jobs h found in
    other-Refuses id gen worker (history cs jobs) (history-IsKeyed cs jobs h) found'
      (stale-owned id gen worker k (omega (arith, Life-generation life)))

abbrev pub is_terminal : JobStatus → Bool
is_terminal completed = true
is_terminal failed = true
is_terminal cancelled = true
is_terminal _ = false

Change-terminal : {j k : ReviewJob} → Change j k → is_terminal j.status ≡ true → k ≡ j
unfolding owned claimable
Change-terminal (untouched e) t = e
Change-terminal (cancelled_at now o e) t = ground arith
Change-terminal (claimed_at now worker lease c f e) t = ground arith
Change-terminal (renewed now gen worker lease o e) t = ground arith
Change-terminal (completed_at now gen worker result o e) t = ground arith
Change-terminal (failed_at now gen worker msg o e) t = ground arith
Change-terminal (context_saved now gen worker blob o e) t = ground arith
Change-terminal (result_saved now gen worker blob version o e) t = ground arith

Life-terminal : {j k : ReviewJob} → Life j k → is_terminal j.status ≡ true → k ≡ j
Life-terminal born t = refl
Life-terminal (then_changed l c) t =
    let same = Life-terminal l t in Change-terminal c (rw same t) ∙ same

-- In a table whose keys are unique, a completed, failed or cancelled row is final: no statements change
-- any column of it.
pub terminal_final :
    (cs : List Command) (id : ℕ) (jobs : Jobs) {j : ReviewJob}
    → IsKeyed jobs
    → get_job id jobs ≡ some j
    → is_terminal j.status ≡ true
    → get_job id (history cs jobs) ≡ some j
terminal_final cs id jobs h found t =
    let (k, found', life) = history-Becomes cs id jobs h found in
    found' ∙ ap some (Life-terminal life t)
