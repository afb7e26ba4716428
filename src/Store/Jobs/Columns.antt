-- ===== src/Store/Jobs/Columns.antt =====
-- What the statements of internal/store/postgres/store.go promise of a row of `review_jobs`, column by
-- column and apart from their code.
use agent_frei_igi.Prelude.{
  ℕ, ◌+◌, ◌<◌, ◌≡◌, ◌≢◌, ◌⊎◌, inl, inr, refl, ◌↔◌, ==_iff, not, true, Option, none, some, Text,
  text_eq, text_eq_refl, eq_of_text_eq, arith, Bool-cases, and-true,
}
use agent_frei_igi.Domain.{
  ReviewJob, JobStatus, pending, running, retry_wait, needs_reconcile, cancelled, completed, failed,
  is_running,
}
use agent_frei_igi.Store.Jobs.{
  claimed, claimable, claimable_status, expired, owned, held_by, is_open, open_for_pr, superseded,
}

-- What a claim makes of a row.
pub record IsClaimed (now : ℕ) (worker : Text) (lease : ℕ) (j k : ReviewJob) : Type 0 where
  pub status_running : k.status ≡ running
  pub next_generation : k.lock_generation ≡ j.lock_generation + 1
  pub holder : k.locked_by ≡ some worker
  pub until : k.locked_until ≡ some (now + lease)
  pub next_attempt : k.attempt ≡ j.attempt + 1
  pub updated : k.updated_at ≡ now
  pub others_stay :
      record k {
        status = j.status;
        lock_generation = j.lock_generation;
        locked_by = j.locked_by;
        locked_until = j.locked_until;
        attempt = j.attempt;
        updated_at = j.updated_at;
      }
      ≡ j

pub claimed-IsClaimed :
    (now : ℕ) (worker : Text) (lease : ℕ) (j : ReviewJob)
    → IsClaimed now worker lease j (claimed now worker lease j)
unfolding claimed
claimed-IsClaimed now worker lease j = record {
  status_running = refl;
  next_generation = refl;
  holder = refl;
  until = refl;
  next_attempt = refl;
  updated = refl;
  others_stay = refl;
}

-- A row that waits for a worker, or whose worker's lease has run out.
abbrev pub CanClaim : ℕ → ReviewJob → Type 0
CanClaim now j =
    (j.status ≡ pending)
    ⊎ ((j.status ≡ retry_wait)
        ⊎ ((j.status ≡ needs_reconcile)
            ⊎ ((j.status ≡ running) × ((u : ℕ) × (j.locked_until ≡ some u) × (u < now)))))

expired-some :
    (now : ℕ) (until : Option ℕ) → expired now until ≡ true → (u : ℕ) × (until ≡ some u) × (u < now)
expired-some now none h = cc
expired-some now (some u) h = (u, refl, ground arith)

status-CanClaim :
    (now : ℕ) (until : Option ℕ) (s : JobStatus)
    → claimable_status now until s ≡ true
    → (s ≡ pending)
      ⊎ ((s ≡ retry_wait)
          ⊎ ((s ≡ needs_reconcile) ⊎ ((s ≡ running) × ((u : ℕ) × (until ≡ some u) × (u < now)))))
status-CanClaim now until pending h = inl refl
status-CanClaim now until retry_wait h = inr (inl refl)
status-CanClaim now until needs_reconcile h = inr (inr (inl refl))
status-CanClaim now until running h = inr (inr (inr (refl, expired-some now until h)))
status-CanClaim now until completed h = cc
status-CanClaim now until failed h = cc
status-CanClaim now until cancelled h = cc

pub claimable-CanClaim : (now : ℕ) (j : ReviewJob) → claimable now j ≡ true → CanClaim now j
unfolding claimable
claimable-CanClaim now j h = status-CanClaim now j.locked_until j.status h

pub CanClaim-claimable : (now : ℕ) (j : ReviewJob) → CanClaim now j → claimable now j ≡ true
unfolding claimable
CanClaim-claimable now j (inl e) = rw e
CanClaim-claimable now j (inr (inl e)) = rw e
CanClaim-claimable now j (inr (inr (inl e))) = rw e
CanClaim-claimable now j (inr (inr (inr (e, (u, until, over))))) = ground arith

-- The row that a worker holds under a generation.
abbrev pub IsHeld : ℕ → ℕ → Text → ReviewJob → Type 0
IsHeld id gen worker j =
    (j.id ≡ id) × (j.lock_generation ≡ gen) × (j.locked_by ≡ some worker) × (j.status ≡ running)

held_by-some : (o : Option Text) (worker : Text) → held_by o worker ≡ true → o ≡ some worker
held_by-some none worker h = cc
held_by-some (some w) worker h = cc (eq_of_text_eq w worker h)

is_running-running : (s : JobStatus) → is_running s ≡ true → s ≡ running
is_running-running s h = ground arith

pub owned-IsHeld :
    (id gen : ℕ) (worker : Text) (j : ReviewJob)
    → (owned id gen worker j ≡ true) ↔ IsHeld id gen worker j
unfolding owned
owned-IsHeld id gen worker j = (
  λ h.
      let holds : held_by j.locked_by worker ≡ true = ground arith in
      let runs : is_running j.status ≡ true = ground arith in
      (
        ground arith,
        ground arith,
        held_by-some j.locked_by worker holds,
        is_running-running j.status runs,
      ),
  λ (same, gen', holder, status). rw (
    same,
    gen',
    holder,
    status,
    (==_iff id id).1 refl,
    (==_iff gen gen).1 refl,
    text_eq_refl worker,
  ),
)

-- A job that has not come to an end.
abbrev pub IsOpen : JobStatus → Type 0
IsOpen s = (s ≡ pending) ⊎ ((s ≡ running) ⊎ (s ≡ retry_wait))

is_open-IsOpen : (s : JobStatus) → (is_open s ≡ true) ↔ IsOpen s
is_open-IsOpen s = (λ h. forth s h, λ o. back o)
  where
    forth : (s : JobStatus) → is_open s ≡ true → IsOpen s
    forth pending h = inl refl
    forth running h = inr (inl refl)
    forth retry_wait h = inr (inr refl)
    forth needs_reconcile h = cc
    forth completed h = cc
    forth failed h = cc
    forth cancelled h = cc

    back : {s : JobStatus} → IsOpen s → is_open s ≡ true
    back (inl e) = rw e
    back (inr (inl e)) = rw e
    back (inr (inr e)) = rw e

-- An open job of a pull request.
abbrev pub IsOpenFor : ℕ → Text → ℕ → ReviewJob → Type 0
IsOpenFor inst repo pr j =
    (j.installation_id ≡ inst) × (j.repo_full_name ≡ repo) × (j.pr_number ≡ pr) × IsOpen j.status

pub open_for_pr-IsOpenFor :
    (inst : ℕ) (repo : Text) (pr : ℕ) (j : ReviewJob)
    → (open_for_pr inst repo pr j ≡ true) ↔ IsOpenFor inst repo pr j
unfolding open_for_pr
open_for_pr-IsOpenFor inst repo pr j = (
  λ h.
      let same : text_eq j.repo_full_name repo ≡ true = ground arith in
      let opens : is_open j.status ≡ true = ground arith in
      (
        ground arith,
        eq_of_text_eq j.repo_full_name repo same,
        ground arith,
        (is_open-IsOpen j.status).0 opens,
      ),
  λ (i, r, p, o). rw (
    i,
    r,
    p,
    (is_open-IsOpen j.status).1 o,
    (==_iff inst inst).1 refl,
    (==_iff pr pr).1 refl,
    text_eq_refl repo,
  ),
)

pub superseded-IsOpenFor :
    (inst : ℕ) (repo : Text) (pr : ℕ) (except : Text) (j : ReviewJob)
    → (superseded inst repo pr except j ≡ true) ↔ (IsOpenFor inst repo pr j × (j.head_sha ≢ except))
unfolding superseded
superseded-IsOpenFor inst repo pr except j = (
  λ h.
      let (opens, other) =
        and-true (open_for_pr inst repo pr j) (not (text_eq j.head_sha except)) h in
      (
        (open_for_pr-IsOpenFor inst repo pr j).0 opens,
        λ e. cc (rw (e, text_eq_refl except) at other),
      ),
  λ (opens, other). elim (Bool-cases (text_eq j.head_sha except)) [
    | inl same ↦ absurd (other (eq_of_text_eq j.head_sha except same))
    | inr differs ↦ rw (differs, (open_for_pr-IsOpenFor inst repo pr j).1 opens)
  ],
)
