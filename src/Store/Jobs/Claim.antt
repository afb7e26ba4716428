-- ===== src/Store/Jobs/Claim.antt =====
-- ClaimJob of internal/store/postgres/store.go: the row that it hands out.
use native.Mathlib.Nat.{le_trans}
use agent_frei_igi.Prelude.{
  ℕ, ◌≤◌, ◌≡◌, ◌↔◌, refl, sym, ap, ◌∙◌, Bool, true, false, not, ◌&&◌, Option, none, some, [], ◌∷◌,
  arith, Text, inl, inr, ◌==◌, ==_iff, ok, Option-cases, and-true, All, All-map, subst,
}
use agent_frei_igi.Domain.{ReviewJob}
use agent_frei_igi.Store.Rows.{update_where, first_row-update}
use agent_frei_igi.Store.Jobs.{
  Jobs, get_job, claimable, oldest, claimed, claim_candidate, claim_job,
}
use agent_frei_igi.Store.Jobs.Keys.{IsKeyed}
use agent_frei_igi.Store.Jobs.Columns.{
  IsClaimed, claimed-IsClaimed, CanClaim, claimable-CanClaim, CanClaim-claimable,
}
use agent_frei_igi.Store.Jobs.Machine.{oldest-get_job}

oldest-none :
    (p : ReviewJob → Bool) (jobs : Jobs) → oldest p jobs ≡ none → All (λ i. p i ≡ false) jobs
unfolding oldest
oldest-none p [] e = tt
oldest-none p (j ∷ js) e = (ground arith, oldest-none p js (ground arith))

none-oldest :
    (p : ReviewJob → Bool) (jobs : Jobs) → All (λ i. p i ≡ false) jobs → oldest p jobs ≡ none
unfolding oldest
none-oldest p [] h = refl
none-oldest p (j ∷ js) h = rw (h.0, none-oldest p js h.1)

abbrev NotBefore : (ReviewJob → Bool) → ReviewJob → ReviewJob → Type 0
NotBefore p c i = p i ≡ true → c.created_at ≤ i.created_at

vacuous :
    (p : ReviewJob → Bool) (c : ReviewJob) (jobs : Jobs)
    → All (λ i. p i ≡ false) jobs
    → All (NotBefore p c) jobs
vacuous p c jobs h = All-map jobs (λ i n y. cc (n, y)) h

-- The candidate of a longer table is not younger than that of the rest, nor than the new row.
oldest-step :
    (p : ReviewJob → Bool) (j : ReviewJob) (js : Jobs) {k c : ReviewJob}
    → oldest p js ≡ some k
    → oldest p (j ∷ js) ≡ some c
    → NotBefore p c j × (c.created_at ≤ k.created_at)
unfolding oldest
oldest-step p j js later e = ground arith

oldest-last :
    (p : ReviewJob → Bool) (j : ReviewJob) (js : Jobs) {c : ReviewJob}
    → oldest p js ≡ none
    → oldest p (j ∷ js) ≡ some c
    → NotBefore p c j
unfolding oldest
oldest-last p j js later e = ground arith

oldest-NotBefore :
    (p : ReviewJob → Bool) (jobs : Jobs) {c : ReviewJob}
    → oldest p jobs ≡ some c
    → All (NotBefore p c) jobs
oldest-NotBefore p [] e = tt
oldest-NotBefore p (j ∷ js) {c} e = elim (Option-cases (oldest p js)) [
  | inl later ↦ (oldest-last p j js later e, vacuous p c js (oldest-none p js later))
  | inr (k, later) ↦
      let (head, le) = oldest-step p j js later e in
      (head, All-map js (λ i n y. le_trans le (n y)) (oldest-NotBefore p js later))
]

abbrev pub available : ℕ → (ReviewJob → Bool) → ReviewJob → Bool
available now locked i = claimable now i && not (locked i)

-- A row that waits and is not locked is not older than `c`.
abbrev NotAfter : ℕ → (ReviewJob → Bool) → ReviewJob → ReviewJob → Type 0
NotAfter now locked c i = CanClaim now i → locked i ≡ false → c.created_at ≤ i.created_at

-- The row that a claim took, its new value, and the rows that it was chosen from.
pub record Takes (locked : ReviewJob → Bool) (now : ℕ) (worker : Text) (lease : ℕ) (jobs : Jobs)
    (j k : ReviewJob) : Type 0 where
  pub was : get_job j.id jobs ≡ some j
  pub free : CanClaim now j
  pub unlocked : locked j ≡ false
  pub new : IsClaimed now worker lease j k
  pub stored : get_job j.id (claim_job locked now worker lease jobs).1 ≡ some k
  pub first : All (NotAfter now locked j) jobs

claim_candidate-ok :
    (now : ℕ) (worker : Text) (lease : ℕ) (o : Option ReviewJob) (jobs : Jobs) {k : ReviewJob}
    → (claim_candidate now worker lease o jobs).0 ≡ ok (some k)
    → (j : ReviewJob) × (o ≡ some j)
      × (k ≡ claimed now worker lease j)
      × ((claim_candidate now worker lease o jobs).1
          ≡ update_where (λ a. a.id == j.id) (claimed now worker lease) jobs)
unfolding claim_candidate
claim_candidate-ok now worker lease none jobs h = cc
claim_candidate-ok now worker lease (some c) jobs h = (c, refl, ground arith, ground arith)

pub claimed-get_job :
    (now : ℕ) (worker : Text) (lease : ℕ) (jobs : Jobs) (j : ReviewJob)
    → get_job j.id jobs ≡ some j
    → get_job j.id (update_where (λ a. a.id == j.id) (claimed now worker lease) jobs)
      ≡ some (claimed now worker lease j)
unfolding get_job claimed
claimed-get_job now worker lease jobs j found =
    first_row-update (λ a. a.id == j.id) (λ a. a.id == j.id) (claimed now worker lease) (λ a. refl)
      jobs found
    ∙ rw ((==_iff j.id j.id).1 refl)

-- In a table whose keys are unique, a successful claim hands out a row that waits, or whose lease has run
-- out, and that no other transaction locks, none of the others of that kind being older; it returns, and
-- stores, that row as running, held by the worker until its lease ends, with the next generation and
-- attempt, and unchanged in all other columns.
pub claim_job-Takes :
    (locked : ReviewJob → Bool) (now : ℕ) (worker : Text) (lease : ℕ) (jobs : Jobs) {k : ReviewJob}
    → IsKeyed jobs
    → (claim_job locked now worker lease jobs).0 ≡ ok (some k)
    → (j : ReviewJob) × Takes locked now worker lease jobs j k
unfolding claim_job
claim_job-Takes locked now worker lease jobs h e =
    let o = oldest (available now locked) jobs in
    let (j, chosen, new, table) = claim_candidate-ok now worker lease o jobs e in
    let (was, p) = oldest-get_job (available now locked) jobs h chosen in
    (
      j,
      record {
        was = was;
        free = claimable-CanClaim now j (and-true _ _ p).0;
        unlocked = ground arith;
        new = subst (IsClaimed now worker lease j) (sym new) (claimed-IsClaimed now worker lease j);
        stored = rw table (claimed-get_job now worker lease jobs j was ∙ ap some (sym new));
        first =
            All-map jobs (λ i n waits free. n (rw (CanClaim-claimable now i waits, free)))
              (oldest-NotBefore (available now locked) jobs chosen);
      },
    )

claim_candidate-none :
    (now : ℕ) (worker : Text) (lease : ℕ) (o : Option ReviewJob) (jobs : Jobs)
    → ((claim_candidate now worker lease o jobs).0 ≡ ok none) ↔ (o ≡ none)
unfolding claim_candidate
claim_candidate-none now worker lease none jobs = (λ e. refl, λ e. refl)
claim_candidate-none now worker lease (some c) jobs = (λ e. ground arith, λ e. cc)

-- A claim comes back empty exactly when no row is both claimable and free of other transactions.
pub claim_job-empty :
    (locked : ReviewJob → Bool) (now : ℕ) (worker : Text) (lease : ℕ) (jobs : Jobs)
    → ((claim_job locked now worker lease jobs).0 ≡ ok none)
      ↔ All (λ i. (claimable now i && not (locked i)) ≡ false) jobs
unfolding claim_job
claim_job-empty locked now worker lease jobs =
    let o = oldest (available now locked) jobs in
    let iff = claim_candidate-none now worker lease o jobs in
    (
      λ e. oldest-none (available now locked) jobs (iff.0 e),
      λ h. iff.1 (none-oldest (available now locked) jobs h),
    )
