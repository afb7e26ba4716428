-- ===== src/Store/Jobs/Served.antt =====
-- ClaimJob of internal/store/postgres/store.go: no job that waits is passed over for good.
use agent_frei_igi.Prelude.{
  ℕ, ◌≤◌, ◌<◌, ◌≡◌, refl, sym, ap, ◌∙◌, Bool, true, false, some, List, [], ◌∷◌, arith, Text, inl,
  inr, ◌==◌, Option-cases, All, Bool-cases, length, ◌⊎◌,
}
use agent_frei_igi.Domain.{ReviewJob}
use agent_frei_igi.Store.Rows.{rows_where}
use agent_frei_igi.Store.Jobs.{Jobs, get_job, oldest, claimed, claim_job}
use agent_frei_igi.Store.Jobs.Keys.{IsKeyed}
use agent_frei_igi.Store.Jobs.Columns.{IsClaimed, claimed-IsClaimed, CanClaim, CanClaim-claimable}
use agent_frei_igi.Store.Jobs.Machine.{oldest-get_job, same_row, get_job-id}
use agent_frei_igi.Store.Jobs.Claim.{available, claimed-get_job}
use agent_frei_igi.Store.Jobs.Lease.{untouched-get_job}
use agent_frei_igi.Store.Jobs.Drain.{
  CanCount, found-All, claimed-unavailable, claim-counts, claim-CanCount, claim_each, claim-IsKeyed,
}

counted :
    (p : ReviewJob → Bool) (id : ℕ) (jobs : Jobs) {j : ReviewJob}
    → get_job id jobs ≡ some j
    → p j ≡ true
    → 0 < rows_where p jobs
unfolding get_job
counted p id [] found chosen = cc
counted p id (k ∷ jobs) {j} found chosen = ground (arith, counted p id jobs {j = j})

claimed-id :
    (now : ℕ) (worker : Text) (lease : ℕ) (j : ReviewJob) → (claimed now worker lease j).id ≡ j.id
unfolding claimed
claimed-id now worker lease j = refl

module _ (locked : ReviewJob → Bool) (now lease : ℕ) (worker : Text) where
  -- The row that is taken was available, and a row is taken where one is.
  data Round (id : ℕ) (j : ReviewJob) (jobs : Jobs) : Type 0 where
    passed_over : get_job id (claim_job locked now worker lease jobs).1 ≡ some j → Round id j jobs
    handed_out :
        available now locked j ≡ true
        → get_job id (claim_job locked now worker lease jobs).1 ≡ some (claimed now worker lease j)
        → Round id j jobs

  round :
      (id : ℕ) (j : ReviewJob) (jobs : Jobs)
      → IsKeyed jobs
      → All (CanCount now locked) jobs
      → get_job id jobs ≡ some j
      → Round id j jobs
  unfolding claim_job
  round id j jobs keyed fit found = elim (Option-cases (oldest (available now locked) jobs)) [
    | inl nothing ↦ passed_over (rw nothing found)
    | inr (c, chosen) ↦
        let (there, waits) = oldest-get_job (available now locked) jobs keyed chosen in
        let fits = found-All (CanCount now locked) c.id jobs fit there waits in
        elim (Bool-cases (j.id == c.id)) [
          | inl same ↦
              let j≡c : j ≡ c = same_row id jobs found there same in
              let here : c.id ≡ id =
                ap (λ (a : ReviewJob). a.id) (sym j≡c) ∙ get_job-id id jobs found in
              handed_out (rw j≡c waits)
                (rw (chosen, fits, j≡c, ← here) (claimed-get_job now worker lease jobs c there))
          | inr other ↦ passed_over (
              rw (chosen, fits)
                (untouched-get_job id (λ a. a.id == c.id) (claimed now worker lease) jobs
                  (claimed-id now worker lease) found other))
        ]
  ]

  -- A row that does not wait is passed over.
  stays :
      (id : ℕ) (k : ReviewJob) (jobs : Jobs)
      → IsKeyed jobs
      → All (CanCount now locked) jobs
      → get_job id jobs ≡ some k
      → available now locked k ≡ false
      → get_job id (claim_job locked now worker lease jobs).1 ≡ some k
  stays id k jobs keyed fit found busy = by_round (round id k jobs keyed fit found)
    where
      by_round : Round id k jobs → get_job id (claim_job locked now worker lease jobs).1 ≡ some k
      by_round (passed_over e) = e
      by_round (handed_out waits e) = absurd (cc (waits, busy))

module _ (locked : ReviewJob → Bool) (now lease : ℕ) where
  all_stay :
      (workers : List Text) (id : ℕ) (k : ReviewJob) (jobs : Jobs)
      → IsKeyed jobs
      → All (CanCount now locked) jobs
      → get_job id jobs ≡ some k
      → available now locked k ≡ false
      → get_job id (claim_each locked now lease workers jobs) ≡ some k
  unfolding claim_each
  all_stay [] id k jobs keyed fit found busy = found
  all_stay (w ∷ ws) id k jobs keyed fit found busy =
      all_stay ws id k (claim_job locked now w lease jobs).1
        (claim-IsKeyed locked now lease w jobs keyed) (claim-CanCount now locked w lease jobs fit)
        (stays locked now lease w id k jobs keyed fit found busy) busy

module _ (now lease : ℕ) where
  -- The row was handed out to one of the workers, and stayed with it.
  abbrev pub HandedOut : List Text → ℕ → ReviewJob → Jobs → Type 0
  HandedOut [] id j jobs = ⊥
  HandedOut (w ∷ ws) id j jobs =
      ((k : ReviewJob) × (get_job id jobs ≡ some k) × IsClaimed now w lease j k)
      ⊎ HandedOut ws id j jobs

waits-HandedOut :
    (locked : ReviewJob → Bool) (now lease : ℕ) (workers : List Text) (id : ℕ) (j : ReviewJob)
    (jobs : Jobs)
    → IsKeyed jobs
    → All (CanCount now locked) jobs
    → get_job id jobs ≡ some j
    → available now locked j ≡ true
    → rows_where (available now locked) jobs ≤ length workers
    → HandedOut now lease workers id j (claim_each locked now lease workers jobs)
unfolding claim_each
waits-HandedOut locked now lease [] id j jobs keyed fit found waits enough =
    omega (arith, counted (available now locked) id jobs found waits, enough)
waits-HandedOut locked now lease (w ∷ ws) id j jobs keyed fit found waits enough =
    let next = (claim_job locked now w lease jobs).1 in
    let keyed' = claim-IsKeyed locked now lease w jobs keyed in
    let fit' = claim-CanCount now locked w lease jobs fit in
    by_round (round locked now lease w id j jobs keyed fit found) (λ e.
      waits-HandedOut locked now lease ws id j next keyed' fit' e waits
        (omega (arith, claim-counts now locked w lease jobs keyed fit, enough)))
  where
    by_round :
        Round locked now lease w id j jobs
        → (get_job id (claim_job locked now w lease jobs).1 ≡ some j
            → HandedOut now lease ws id j
                (claim_each locked now lease ws (claim_job locked now w lease jobs).1))
        → HandedOut now lease
            (w ∷ ws)
            id
            j
            (claim_each locked now lease ws (claim_job locked now w lease jobs).1)
    by_round (passed_over e) later = inr (later e)
    by_round (handed_out waits e) later = inl (
      claimed now w lease j,
      all_stay locked now lease ws id (claimed now w lease j) (claim_job locked now w lease jobs).1
          (claim-IsKeyed locked now lease w jobs keyed) (claim-CanCount now locked w lease jobs fit)
          e (claimed-unavailable now locked w lease j),
      claimed-IsClaimed now w lease j,
    )

-- In a table whose keys are unique and whose counters have room, when as many workers poll at one time
-- as rows wait, each row that waits, or whose lease has run out, and that no other transaction locks, is
-- handed out to one of them: after all have polled it is running, held by that worker until its lease
-- ends, with the next generation and attempt, and unchanged in all other columns.
pub waiting-HandedOut :
    (locked : ReviewJob → Bool) (now lease : ℕ) (workers : List Text) (id : ℕ) (j : ReviewJob)
    (jobs : Jobs)
    → IsKeyed jobs
    → All (CanCount now locked) jobs
    → get_job id jobs ≡ some j
    → CanClaim now j
    → locked j ≡ false
    → rows_where (available now locked) jobs ≤ length workers
    → HandedOut now lease workers id j (claim_each locked now lease workers jobs)
waiting-HandedOut locked now lease workers id j jobs keyed fit found waits free enough =
    waits-HandedOut locked now lease workers id j jobs keyed fit found
      (rw (CanClaim-claimable now j waits, free)) enough
