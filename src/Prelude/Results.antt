-- ===== src/Prelude/Results.antt =====
-- Go's `error` values, results, and actions on a state that may fail.
use mathlib.Core.Bool.{Bool, true, false}
use mathlib.Core.List.{◌++◌}
use agent_frei_igi.Prelude.Strings.{Text, bytes}

-- The sentinels that the program tests for, a plain message, and `fmt.Errorf("m: %w", e)`.
pub data Error : Type 0 where
  canceled deadline_exceeded : Error
  job_cancelled job_already_exists publication_exists : Error
  rate_limited session_dead : Error
  message : Text → Error
  wrapped : Text → Error → Error

-- err.Error()
unfoldable pub error_text : Error → Text
error_text canceled = bytes "context canceled"
error_text deadline_exceeded = bytes "context deadline exceeded"
error_text job_cancelled = bytes "job cancelled in database"
error_text job_already_exists = bytes "job already exists"
error_text publication_exists = bytes "publication already exists for this job"
error_text rate_limited = bytes "provider rate limited"
error_text session_dead = bytes "provider session dead"
error_text (message m) = m
error_text (wrapped m e) = m ++ bytes ": " ++ error_text e

-- errors.Is(err, context.Canceled)
abbrev pub is_canceled : Error → Bool
is_canceled canceled = true
is_canceled (wrapped m e) = is_canceled e
is_canceled _ = false

-- errors.Is(err, ErrPublicationExists)
abbrev pub is_publication_exists : Error → Bool
is_publication_exists publication_exists = true
is_publication_exists (wrapped m e) = is_publication_exists e
is_publication_exists _ = false

-- errors.Is(err, ErrJobAlreadyExists)
abbrev pub is_job_already_exists : Error → Bool
is_job_already_exists job_already_exists = true
is_job_already_exists (wrapped m e) = is_job_already_exists e
is_job_already_exists _ = false

pub data Result {ℓ} (A : Type ℓ) : Type ℓ where
  ok : A → Result A
  err : Error → Result A

-- err == nil
abbrev pub is_ok {ℓ} : {A : Type ℓ} → Result A → Bool
is_ok (ok a) = true
is_ok (err e) = false

-- `if err != nil { return fmt.Errorf("m: %w", err) }`
abbrev pub wrap {ℓ} : {A : Type ℓ} → Text → Result A → Result A
wrap m (ok a) = ok a
wrap m (err e) = err (wrapped m e)

-- What an action has changed stays changed if it fails.
abbrev pub Action {ℓ} : Type ℓ → Type ℓ → Type ℓ
Action S A = S → Result A × S

module _ {ℓ} {S A : Type ℓ} where
  abbrev pub pure : A → Action S A
  pure a s = (ok a, s)

  abbrev pub fail : Error → Action S A
  fail e s = (err e, s)

  abbrev pub wrapping : Text → Action S A → Action S A
  wrapping m act s = let (r, s') = act s in (wrap m r, s')

module _ {ℓ} {S A B : Type ℓ} where
  -- The rest of a block, after a result.
  abbrev pub continue : Result A → (A → Action S B) → Action S B
  continue (ok a) f s = f a s
  continue (err e) f s = (err e, s)

  infixl 5 ◌>>=◌ ◌>>◌
  abbrev pub ◌>>=◌ : Action S A → (A → Action S B) → Action S B
  ◌>>=◌ m f s = continue (m s).0 f (m s).1

  abbrev pub ◌>>◌ : Action S A → Action S B → Action S B
  ◌>>◌ m k = m >>= λ _. k
