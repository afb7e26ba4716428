-- ===== src/Store/Jobs/Keys.antt =====
-- The primary key and the unique constraint of `review_jobs`.
use mathlib.Core.Path.{fun_ext}
use agent_frei_igi.Prelude.{
  ℕ, ◌≡◌, refl, ap, ◌∙◌, Bool, true, false, Option, none, some, List, [], ◌∷◌, ◌++◌, arith, Text,
  Bool-cases, if◌then◌else◌, inl, inr,
}
use agent_frei_igi.Domain.{ReviewJob}
use agent_frei_igi.Store.Rows.{update_where, any_row, any_row-update}
use agent_frei_igi.Store.Jobs.{
  Jobs, cancel, beat, complete, fail_row, set_context, set_result, same_key, conflicts, create_job,
  cancel_jobs_for_pr, cancel_open_jobs_for_pr, claimed, claim_candidate, counters_fit, claim_job,
  heartbeat_job, complete_job, fail_job, update_job_context, update_job_result, open_for_pr,
  superseded, owned,
}
use agent_frei_igi.Store.Jobs.Commands.{
  Command, create, supersede, close, claim, heartbeat, finish, give_up, save_context, save_result,
  run, history,
}

-- No two rows have the same id, or the same installation, repository, pull request and head.
abbrev pub IsKeyed : Jobs → Type 0
IsKeyed [] = Unit
IsKeyed (j ∷ js) = (any_row (conflicts j) js ≡ false) × IsKeyed js

abbrev key : ReviewJob → ℕ × ℕ × Text × ℕ × Text
key j = (j.id, j.installation_id, j.repo_full_name, j.pr_number, j.head_sha)

-- A function that leaves the id and the key columns of a row alone.
abbrev KeepsKey : (ReviewJob → ReviewJob) → Type 0
KeepsKey f = (j : ReviewJob) → key (f j) ≡ key j

module _ (f : ReviewJob → ReviewJob) (k : KeepsKey f) where
  conflicts-left : (a b : ReviewJob) → conflicts (f a) b ≡ conflicts a b
  unfolding conflicts same_key
  conflicts-left a b = cc (k a)

  conflicts-right : (a b : ReviewJob) → conflicts a (f b) ≡ conflicts a b
  unfolding conflicts same_key
  conflicts-right a b = cc (k b)

  any_row-conflicts :
      (b : Bool) (j : ReviewJob) (js : Jobs)
      → any_row (conflicts (if b then f j else j)) js ≡ any_row (conflicts j) js
  any_row-conflicts true j js = ap (λ q. any_row q js) (fun_ext (conflicts-left j))
  any_row-conflicts false j js = refl

  pub update_where-IsKeyed :
      (p : ReviewJob → Bool) (js : Jobs) → IsKeyed js → IsKeyed (update_where p f js)
  update_where-IsKeyed p [] h = tt
  update_where-IsKeyed p (j ∷ js) h =
      let row = if p j then f j else j in
      (
        any_row-update (conflicts row) p f (conflicts-right row) js
            ∙ any_row-conflicts (p j) j js
            ∙ h.0,
        update_where-IsKeyed p js h.1,
      )

any_row-snoc :
    (q : ReviewJob → Bool) (js : Jobs) (r : ReviewJob)
    → any_row q js ≡ false
    → q r ≡ false
    → any_row q (js ++ r ∷ []) ≡ false
any_row-snoc q [] r h e = ground arith
any_row-snoc q (j ∷ js) r h e = ground (arith, any_row-snoc q js r)

snoc-IsKeyed :
    (js : Jobs) (r : ReviewJob)
    → IsKeyed js
    → any_row (λ j. conflicts j r) js ≡ false
    → IsKeyed (js ++ r ∷ [])
snoc-IsKeyed [] r h e = (refl, tt)
snoc-IsKeyed (j ∷ js) r h e =
    (any_row-snoc (conflicts j) js r h.0 (ground arith), snoc-IsKeyed js r h.1 (ground arith))

pub create_job-IsKeyed :
    (fresh now : ℕ) (job : ReviewJob) (jobs : Jobs)
    → IsKeyed jobs
    → IsKeyed (create_job fresh now job jobs).1
unfolding create_job
create_job-IsKeyed fresh now job jobs h =
    let row : ReviewJob = record job { id = fresh; created_at = now; updated_at = now } in
    elim (Bool-cases (any_row (λ j. conflicts j row) jobs)) [
      | inl e ↦ rw e h
      | inr e ↦ rw e (snoc-IsKeyed jobs row h e)
    ]

claim_candidate-IsKeyed :
    (now : ℕ) (worker : Text) (lease : ℕ) (candidate : Option ReviewJob) (jobs : Jobs)
    → IsKeyed jobs
    → IsKeyed (claim_candidate now worker lease candidate jobs).1
unfolding claim_candidate
claim_candidate-IsKeyed now worker lease none jobs h = h
claim_candidate-IsKeyed now worker lease (some c) jobs h = elim (Bool-cases (counters_fit c)) [
  | inl e ↦ rw e (update_where-IsKeyed (claimed now worker lease) (λ j. refl) _ jobs h)
  | inr e ↦ rw e h
]

-- Every statement keeps the keys of the table unique.
pub run-IsKeyed : (c : Command) (jobs : Jobs) → IsKeyed jobs → IsKeyed (run c jobs)
unfolding run cancel_jobs_for_pr cancel_open_jobs_for_pr claim_job heartbeat_job complete_job
    fail_job update_job_context update_job_result
run-IsKeyed (create now fresh job) jobs h = create_job-IsKeyed fresh now job jobs h
run-IsKeyed (supersede now inst repo pr except) jobs h =
    update_where-IsKeyed (cancel now) (λ j. refl) (superseded inst repo pr except) jobs h
run-IsKeyed (close now inst repo pr) jobs h =
    update_where-IsKeyed (cancel now) (λ j. refl) (open_for_pr inst repo pr) jobs h
run-IsKeyed (claim now locked worker lease) jobs h =
    claim_candidate-IsKeyed now worker lease _ jobs h
run-IsKeyed (heartbeat now id gen worker lease) jobs h =
    update_where-IsKeyed (beat now lease) (λ j. refl) (owned id gen worker) jobs h
run-IsKeyed (finish now id gen worker result) jobs h =
    update_where-IsKeyed (complete now result) (λ j. refl) (owned id gen worker) jobs h
run-IsKeyed (give_up now id gen worker msg) jobs h =
    update_where-IsKeyed (fail_row now msg) (λ j. refl) (owned id gen worker) jobs h
run-IsKeyed (save_context now id gen worker blob) jobs h =
    update_where-IsKeyed (set_context now blob) (λ j. refl) (owned id gen worker) jobs h
run-IsKeyed (save_result now id gen worker blob version) jobs h =
    update_where-IsKeyed (set_result now blob version) (λ j. refl) (owned id gen worker) jobs h

-- In a table where no two rows share an id, or installation, repository, pull request and head, none do
-- after any statements.
pub history-IsKeyed : (cs : List Command) (jobs : Jobs) → IsKeyed jobs → IsKeyed (history cs jobs)
unfolding history
history-IsKeyed [] jobs h = h
history-IsKeyed (c ∷ cs) jobs h = history-IsKeyed cs (run c jobs) (run-IsKeyed c jobs h)
