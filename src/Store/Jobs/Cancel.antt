-- ===== src/Store/Jobs/Cancel.antt =====
-- What the two cancellations do to the open jobs of a pull request, and what they leave.
use agent_frei_igi.Prelude.{ℕ, ◌≡◌, true, false, [], ◌∷◌, arith, Text, text_eq, All, if◌then◌else◌}
use agent_frei_igi.Domain.{ReviewJob}
use agent_frei_igi.Store.Jobs.{
  Jobs, cancel, open_for_pr, superseded, cancel_jobs_for_pr, cancel_open_jobs_for_pr,
}

cancel-not_open :
    (now inst : ℕ) (repo : Text) (pr : ℕ) (j : ReviewJob)
    → open_for_pr inst repo pr (if open_for_pr inst repo pr j then cancel now j else j) ≡ false
unfolding open_for_pr
cancel-not_open now inst repo pr j = ground arith

-- After a pull request is closed none of its jobs is pending, running or waiting for a retry.
pub cancel_open-All :
    (now inst : ℕ) (repo : Text) (pr : ℕ) (jobs : Jobs)
    → All
        (λ j. open_for_pr inst repo pr j ≡ false)
        (cancel_open_jobs_for_pr now inst repo pr jobs).1
unfolding cancel_open_jobs_for_pr
cancel_open-All now inst repo pr [] = tt
cancel_open-All now inst repo pr (j ∷ js) =
    (cancel-not_open now inst repo pr j, cancel_open-All now inst repo pr js)

superseded-cancel :
    (now inst : ℕ) (repo : Text) (pr : ℕ) (except : Text) (j : ReviewJob)
    → let k = if superseded inst repo pr except j then cancel now j else j in
      open_for_pr inst repo pr k ≡ true → text_eq k.head_sha except ≡ true
unfolding superseded open_for_pr
superseded-cancel now inst repo pr except j h = ground arith

-- After a new head supersedes the older ones, every job of the pull request that is still open is for
-- that head.
pub cancel_jobs-All :
    (now inst : ℕ) (repo : Text) (pr : ℕ) (except : Text) (jobs : Jobs)
    → All
        (λ j. open_for_pr inst repo pr j ≡ true → text_eq j.head_sha except ≡ true)
        (cancel_jobs_for_pr now inst repo pr except jobs).1
unfolding cancel_jobs_for_pr
cancel_jobs-All now inst repo pr except [] = tt
cancel_jobs-All now inst repo pr except (j ∷ js) =
    (superseded-cancel now inst repo pr except j, cancel_jobs-All now inst repo pr except js)
