-- ===== src/Store/Jobs/Drain.antt =====
-- ClaimJob of internal/store/postgres/store.go: workers that poll at one time empty the queue.
use agent_frei_igi.Prelude.{
  ℕ, ◌+◌, ◌-◌, ◌≡◌, refl, Bool, true, false, none, some, List, [], ◌∷◌, arith, Text, inl, inr, ◌==◌,
  subst, length, Option-cases, All, Bool-cases,
}
use agent_frei_igi.Domain.{ReviewJob}
use agent_frei_igi.Store.Rows.{update_where, rows_where, any_row}
use agent_frei_igi.Store.Jobs.{
  Jobs, get_job, claimable, oldest, claimed, claim_job, counters_fit, conflicts,
}
use agent_frei_igi.Store.Jobs.Keys.{IsKeyed, run-IsKeyed}
use agent_frei_igi.Store.Jobs.Commands.{claim, run}
use agent_frei_igi.Store.Jobs.Machine.{oldest-get_job}
use agent_frei_igi.Store.Jobs.Claim.{available}

-- The server can count each of the rows that wait once more.
abbrev pub CanCount : ℕ → (ReviewJob → Bool) → ReviewJob → Type 0
CanCount now locked j = available now locked j ≡ true → counters_fit j ≡ true

absent-update :
    (j : ReviewJob) (f : ReviewJob → ReviewJob) (js : Jobs)
    → any_row (conflicts j) js ≡ false
    → update_where (λ a. a.id == j.id) f js ≡ js
unfolding conflicts
absent-update j f [] h = refl
absent-update j f (k ∷ js) h = ground (arith, absent-update j f js)

-- Among the rows that `p` selects, the update of one by its id to a row that is not selected takes
-- one away.
update-counts :
    (p : ReviewJob → Bool) (f : ReviewJob → ReviewJob) (jobs : Jobs) {c : ReviewJob}
    → IsKeyed jobs
    → get_job c.id jobs ≡ some c
    → p c ≡ true
    → p (f c) ≡ false
    → rows_where p (update_where (λ a. a.id == c.id) f jobs) + 1 ≡ rows_where p jobs
unfolding get_job
update-counts p f [] keyed found chosen_row passed = cc
update-counts p f (j ∷ js) {c} keyed found chosen_row passed = elim (Bool-cases (j.id == c.id)) [
  | inl here ↦
      let same : j ≡ c = ground arith in
      let rest : update_where (λ a. a.id == c.id) f js ≡ js =
        rw (← same) (absent-update j f js keyed.0) in
      let one : p j ≡ true = rw same chosen_row in
      let gone : p (f j) ≡ false = rw same passed in rw (here, rest, one, gone) (omega arith)
  | inr other ↦
      let ih = update-counts p f js keyed.1 (rw other at found) chosen_row passed in
      rw other (omega (arith, ih))
]

pub found-All {κ} :
    (P : ReviewJob → Type κ) (id : ℕ) (jobs : Jobs) {c : ReviewJob}
    → All P jobs
    → get_job id jobs ≡ some c
    → P c
unfolding get_job
found-All P id [] h e = cc
found-All P id (j ∷ js) {c} h e = elim (Bool-cases (j.id == id)) [
  | inl here ↦ let same : j ≡ c = ground arith in subst P same h.0
  | inr other ↦ found-All P id js h.1 (rw other at e)
]

update-All {κ} :
    (P : ReviewJob → Type κ) (p : ReviewJob → Bool) (f : ReviewJob → ReviewJob) (jobs : Jobs)
    → ((j : ReviewJob) → P (f j))
    → All P jobs
    → All P (update_where p f jobs)
update-All P p f [] new h = tt
update-All P p f (j ∷ js) new h = elim (Bool-cases (p j)) [
  | inl chosen_row ↦ rw chosen_row (new j, update-All P p f js new h.1)
  | inr passed ↦ rw passed (h.0, update-All P p f js new h.1)
]

pub oldest-counts :
    (p : ReviewJob → Bool) (jobs : Jobs) → oldest p jobs ≡ none → rows_where p jobs ≡ 0
unfolding oldest
oldest-counts p [] e = refl
oldest-counts p (j ∷ js) e = ground (arith, oldest-counts p js)

module _ (now : ℕ) (locked : ReviewJob → Bool) (worker : Text) (lease : ℕ) where
  pub claimed-unavailable :
      (j : ReviewJob) → available now locked (claimed now worker lease j) ≡ false
  unfolding claimable claimed
  claimed-unavailable j = ground arith

  -- One claim takes one of the rows that wait; if none does, it changes nothing.
  pub claim-counts :
      (jobs : Jobs)
      → IsKeyed jobs
      → All (CanCount now locked) jobs
      → rows_where (available now locked) (claim_job locked now worker lease jobs).1
        ≡ rows_where (available now locked) jobs - 1
  unfolding claim_job
  claim-counts jobs keyed fit = elim (Option-cases (oldest (available now locked) jobs)) [
    | inl none_waits ↦
        rw none_waits (omega (arith, oldest-counts (available now locked) jobs none_waits))
    | inr (c, chosen) ↦
        let (found, chosen_row) = oldest-get_job (available now locked) jobs keyed chosen in
        let fits = found-All (CanCount now locked) c.id jobs fit found chosen_row in
        let counted =
          update-counts (available now locked) (claimed now worker lease) jobs keyed found
            chosen_row (claimed-unavailable c) in
        rw (chosen, fits) (omega (arith, counted))
  ]

  pub claim-CanCount :
      (jobs : Jobs)
      → All (CanCount now locked) jobs
      → All (CanCount now locked) (claim_job locked now worker lease jobs).1
  unfolding claim_job
  claim-CanCount jobs fit = elim (Option-cases (oldest (available now locked) jobs)) [
    | inl none_waits ↦ rw none_waits fit
    | inr (c, chosen) ↦ elim (Bool-cases (counters_fit c)) [
      | inr stuck ↦ rw (chosen, stuck) fit
      | inl fits ↦
          rw (chosen, fits)
            (update-All (CanCount now locked) _ (claimed now worker lease) jobs
              (λ j chosen_row. absurd (cc (claimed-unavailable j, chosen_row))) fit)
    ]
  ]

-- The claims of several workers, each under its name, at one time.
unfoldable pub claim_each : (ReviewJob → Bool) → ℕ → ℕ → List Text → Jobs → Jobs
claim_each locked now lease [] jobs = jobs
claim_each locked now lease (worker ∷ workers) jobs =
    claim_each locked now lease workers (claim_job locked now worker lease jobs).1

pub claim-IsKeyed :
    (locked : ReviewJob → Bool) (now lease : ℕ) (worker : Text) (jobs : Jobs)
    → IsKeyed jobs
    → IsKeyed (claim_job locked now worker lease jobs).1
unfolding run
claim-IsKeyed locked now lease worker jobs keyed =
    run-IsKeyed (claim now locked worker lease) jobs keyed

-- In a table whose keys are unique and whose counters have room, each claim of workers that poll at one
-- time takes one of the rows that wait, until none is left.
pub claims_drain :
    (locked : ReviewJob → Bool) (now lease : ℕ) (workers : List Text) (jobs : Jobs)
    → IsKeyed jobs
    → All (CanCount now locked) jobs
    → rows_where (available now locked) (claim_each locked now lease workers jobs)
      ≡ rows_where (available now locked) jobs - length workers
unfolding claim_each
claims_drain locked now lease [] jobs keyed fit = omega arith
claims_drain locked now lease (worker ∷ workers) jobs keyed fit =
    let ih =
      claims_drain locked now lease workers (claim_job locked now worker lease jobs).1
        (claim-IsKeyed locked now lease worker jobs keyed)
        (claim-CanCount now locked worker lease jobs fit) in
    omega (arith, ih, claim-counts now locked worker lease jobs keyed fit)
