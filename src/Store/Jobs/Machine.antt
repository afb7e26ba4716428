-- ===== src/Store/Jobs/Machine.antt =====
-- The life of one row of `review_jobs`, as a state machine beside the statements of store.go.
use agent_frei_igi.Prelude.{
  ℕ, ◌≡◌, ◌⊎◌, ==_iff, refl, ap, ◌∙◌, Bool, true, not, ◌&&◌, Option, none, some, List, [], ◌∷◌,
  arith, Text, Bool-cases, inl, inr, ◌==◌, and-true,
}
use agent_frei_igi.Domain.{ReviewJob}
use agent_frei_igi.Store.Rows.{
  update_where, first_row-update, first_row-append, first_row-holds, any_row, any_row-first,
}
use agent_frei_igi.Store.Jobs.{
  Jobs, cancel, beat, complete, fail_row, set_context, set_result, conflicts, create_job, get_job,
  is_open, cancel_jobs_for_pr, cancel_open_jobs_for_pr, oldest, claimable, claimed, claim_candidate,
  counters_fit, claim_job, heartbeat_job, complete_job, fail_job, update_job_context,
  update_job_result, open_for_pr, superseded, owned,
}
use agent_frei_igi.Store.Jobs.Commands.{
  Command, create, supersede, close, claim, heartbeat, finish, give_up, save_context, save_result,
  run, history,
}
use agent_frei_igi.Store.Jobs.Keys.{IsKeyed, run-IsKeyed}

open_for_pr-open :
    (inst : ℕ) (repo : Text) (pr : ℕ) (j : ReviewJob)
    → open_for_pr inst repo pr j ≡ true
    → is_open j.status ≡ true
unfolding open_for_pr
open_for_pr-open inst repo pr j h = ground arith

superseded-open :
    (inst : ℕ) (repo : Text) (pr : ℕ) (except : Text) (j : ReviewJob)
    → superseded inst repo pr except j ≡ true
    → is_open j.status ≡ true
unfolding superseded
superseded-open inst repo pr except j h = open_for_pr-open inst repo pr j (and-true _ _ h).0

-- What one statement may do to a row.
pub data Change (j k : ReviewJob) : Type 0 where
  untouched : k ≡ j → Change j k
  cancelled_at : (now : ℕ) → is_open j.status ≡ true → k ≡ cancel now j → Change j k
  claimed_at :
      (now : ℕ) (worker : Text) (lease : ℕ)
      → claimable now j ≡ true
      → counters_fit j ≡ true
      → k ≡ claimed now worker lease j
      → Change j k
  renewed :
      (now gen : ℕ) (worker : Text) (lease : ℕ)
      → owned j.id gen worker j ≡ true
      → k ≡ beat now lease j
      → Change j k
  completed_at :
      (now gen : ℕ) (worker : Text) (result : Option Text)
      → owned j.id gen worker j ≡ true
      → k ≡ complete now result j
      → Change j k
  failed_at :
      (now gen : ℕ) (worker msg : Text)
      → owned j.id gen worker j ≡ true
      → k ≡ fail_row now msg j
      → Change j k
  context_saved :
      (now gen : ℕ) (worker : Text) (blob : Option Text)
      → owned j.id gen worker j ≡ true
      → k ≡ set_context now blob j
      → Change j k
  result_saved :
      (now gen : ℕ) (worker : Text) (blob : Option Text) (version : Text)
      → owned j.id gen worker j ≡ true
      → k ≡ set_result now blob version j
      → Change j k

pub data Life (j : ReviewJob) : ReviewJob → Type 0 where
  born : Life j j
  then_changed : {k l : ReviewJob} → Life j k → Change k l → Life j l

-- Where a row of an id went.
abbrev pub Becomes : (ReviewJob → Type 0) → ℕ → Jobs → Type 0
Becomes P id jobs = (k : ReviewJob) × (get_job id jobs ≡ some k) × P k

update-Becomes :
    (p : ReviewJob → Bool) (f : ReviewJob → ReviewJob)
    → ((a : ReviewJob) → (f a).id ≡ a.id)
    → (id : ℕ) (jobs : Jobs) {j : ReviewJob} → get_job id jobs ≡ some j
    → (p j ≡ true → Change j (f j))
    → Becomes (Change j) id (update_where p f jobs)
unfolding get_job
update-Becomes p f same id jobs {j} found change =
    let found' =
      first_row-update (λ a. a.id == id) p f (λ a. ap (λ (n : ℕ). n == id) (same a)) jobs found in
    elim (Bool-cases (p j)) [
      | inl e ↦ (f j, found' ∙ rw e, change e)
      | inr e ↦ (j, found' ∙ rw e, untouched refl)
    ]

get_job-cons :
    (j : ReviewJob) (js : Jobs) {c : ReviewJob}
    → IsKeyed (j ∷ js)
    → get_job c.id js ≡ some c
    → get_job c.id (j ∷ js) ≡ some c
unfolding get_job conflicts
get_job-cons j js {c} h found =
    ground (arith, any_row-first (conflicts j) (λ (a : ReviewJob). a.id == c.id) js h.0 found)

get_job-head : (j : ReviewJob) (js : Jobs) → get_job j.id (j ∷ js) ≡ some j
unfolding get_job
get_job-head j js = ground arith

oldest-cons :
    (p : ReviewJob → Bool) (j : ReviewJob) (js : Jobs) {c : ReviewJob}
    → oldest p (j ∷ js) ≡ some c
    → (oldest p js ≡ some c) ⊎ ((c ≡ j) × (p j ≡ true))
unfolding oldest
oldest-cons p j js e = ground arith

-- The candidate is a row of the table, the only one of its id, and it was selected.
pub oldest-get_job :
    (p : ReviewJob → Bool) (jobs : Jobs) {c : ReviewJob}
    → IsKeyed jobs
    → oldest p jobs ≡ some c
    → (get_job c.id jobs ≡ some c) × (p c ≡ true)
unfolding oldest
oldest-get_job p [] h e = cc
oldest-get_job p (j ∷ js) h e = elim (oldest-cons p j js e) [
  | inl later ↦ let found = oldest-get_job p js h.1 later in (get_job-cons j js h found.0, found.1)
  | inr here ↦ rw here.0 (get_job-head j js, here.1)
]

pub get_job-id : (id : ℕ) (jobs : Jobs) {j : ReviewJob} → get_job id jobs ≡ some j → j.id ≡ id
unfolding get_job
get_job-id id jobs {j} found = (==_iff j.id id).0 (first_row-holds (λ a. a.id == id) jobs found)

pub same_row :
    (id : ℕ) (jobs : Jobs) {j c : ReviewJob}
    → get_job id jobs ≡ some j
    → get_job c.id jobs ≡ some c
    → (j.id == c.id) ≡ true
    → j ≡ c
same_row id jobs {j} {c} found there same = cc (get_job-id id jobs found, (==_iff j.id c.id).0 same)

owned_self :
    (id gen : ℕ) (worker : Text) (j : ReviewJob)
    → owned id gen worker j ≡ true
    → owned j.id gen worker j ≡ true
unfolding owned
owned_self id gen worker j h = ground arith

-- A new row goes behind the others.
pub create_job-get_job :
    (fresh now : ℕ) (job : ReviewJob) (id : ℕ) (jobs : Jobs) {j : ReviewJob}
    → get_job id jobs ≡ some j
    → get_job id (create_job fresh now job jobs).1 ≡ some j
unfolding create_job get_job
create_job-get_job fresh now job id jobs found =
    let row : ReviewJob = record job { id = fresh; created_at = now; updated_at = now } in
    elim (Bool-cases (any_row (λ k. conflicts k row) jobs)) [
      | inl e ↦ rw e found
      | inr e ↦ rw e (first_row-append (λ a. a.id == id) jobs (row ∷ []) found)
    ]

claim_candidate-Becomes :
    (now : ℕ) (worker : Text) (lease : ℕ) (p : ReviewJob → Bool) (candidate : Option ReviewJob)
    (id : ℕ) (jobs : Jobs) {j : ReviewJob}
    → IsKeyed jobs
    → oldest (λ a. claimable now a && p a) jobs ≡ candidate
    → get_job id jobs ≡ some j
    → Becomes (Change j) id (claim_candidate now worker lease candidate jobs).1
unfolding claim_candidate
claim_candidate-Becomes now worker lease p none id jobs {j} h e found = (j, found, untouched refl)
claim_candidate-Becomes now worker lease p (some c) id jobs {j} h e found =
    let (there, chosen) = oldest-get_job (λ a. claimable now a && p a) jobs h e in
    elim (Bool-cases (counters_fit c)) [
      | inl fits ↦ rw fits (
          update-Becomes (λ a. a.id == c.id) (claimed now worker lease) (λ a. refl) id jobs found
            λ same.
              let j≡c : j ≡ c = same_row id jobs found there same in
              claimed_at now worker lease (rw j≡c (and-true _ _ chosen).0) (rw j≡c fits) refl)
      | inr stuck ↦ rw stuck (j, found, untouched refl)
    ]

module _ {j : ReviewJob} (id : ℕ) (jobs : Jobs) (h : IsKeyed jobs)
    (found : get_job id jobs ≡ some j) where
  -- Every statement takes a row along a transition of the machine, and none removes it.
  pub run-Becomes : (c : Command) → Becomes (Change j) id (run c jobs)
  unfolding run cancel_jobs_for_pr cancel_open_jobs_for_pr claim_job heartbeat_job complete_job
      fail_job update_job_context update_job_result
  run-Becomes (create now fresh job) =
      (j, create_job-get_job fresh now job id jobs found, untouched refl)
  run-Becomes (supersede now inst repo pr except) =
      update-Becomes (superseded inst repo pr except) (cancel now) (λ a. refl) id jobs found
        λ e. cancelled_at now (superseded-open inst repo pr except j e) refl
  run-Becomes (close now inst repo pr) =
      update-Becomes (open_for_pr inst repo pr) (cancel now) (λ a. refl) id jobs found
        λ e. cancelled_at now (open_for_pr-open inst repo pr j e) refl
  run-Becomes (claim now locked worker lease) =
      claim_candidate-Becomes now worker lease (λ a. not (locked a)) _ id jobs h refl found
  run-Becomes (heartbeat now i gen worker lease) =
      update-Becomes (owned i gen worker) (beat now lease) (λ a. refl) id jobs found
        λ e. renewed now gen worker lease (owned_self i gen worker j e) refl
  run-Becomes (finish now i gen worker result) =
      update-Becomes (owned i gen worker) (complete now result) (λ a. refl) id jobs found
        λ e. completed_at now gen worker result (owned_self i gen worker j e) refl
  run-Becomes (give_up now i gen worker msg) =
      update-Becomes (owned i gen worker) (fail_row now msg) (λ a. refl) id jobs found
        λ e. failed_at now gen worker msg (owned_self i gen worker j e) refl
  run-Becomes (save_context now i gen worker blob) =
      update-Becomes (owned i gen worker) (set_context now blob) (λ a. refl) id jobs found
        λ e. context_saved now gen worker blob (owned_self i gen worker j e) refl
  run-Becomes (save_result now i gen worker blob version) =
      update-Becomes (owned i gen worker) (set_result now blob version) (λ a. refl) id jobs found
        λ e. result_saved now gen worker blob version (owned_self i gen worker j e) refl

history-Becomes_from :
    (cs : List Command) (id : ℕ) (jobs : Jobs) {i j : ReviewJob}
    → IsKeyed jobs
    → Life i j
    → get_job id jobs ≡ some j
    → Becomes (Life i) id (history cs jobs)
unfolding history
history-Becomes_from [] id jobs {j = j} h l found = (j, found, l)
history-Becomes_from (c ∷ cs) id jobs h l found =
    let (k, found', change) = run-Becomes id jobs h found c in
    history-Becomes_from cs id (run c jobs) (run-IsKeyed c jobs h) (then_changed l change) found'

-- In a table whose keys are unique, whatever statements any processes run in any order, a row stays
-- in the table and its successive values are a path of the state machine.
pub history-Becomes :
    (cs : List Command) (id : ℕ) (jobs : Jobs) {j : ReviewJob}
    → IsKeyed jobs
    → get_job id jobs ≡ some j
    → Becomes (Life j) id (history cs jobs)
history-Becomes cs id jobs h found = history-Becomes_from cs id jobs h born found
