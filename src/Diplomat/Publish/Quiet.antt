-- ===== src/Diplomat/Publish/Quiet.antt =====
-- Actions that send no review and keep the slot of a job, by the way they are built.
use agent_frei_igi.Prelude.{
  ℕ, ◌≡◌, refl, ◌∙◌, Text, length, Result, ok, err, Error, Action, wrapping, pure, fail, continue,
  ◌>>=◌,
}
use agent_frei_igi.Store.Db.{Db, query}
use agent_frei_igi.Store.Db.Rules.{query_rule, IsReserved, IsReserved-survives}
use agent_frei_igi.World.{World, on_db}

-- How many requests to create a review were sent.
abbrev pub posts : World → ℕ
posts w = length w.github.posts

-- An action that sends none, and keeps the slot of the job.
pub record Quiet (job : ℕ) {A : Type 0} (act : Action World A) : Type 0 where
  pub at :
      (w : World)
      → (posts (act w).1 ≡ posts w) × (IsReserved job w.db → IsReserved job (act w).1.db)

module _ (job : ℕ) {A : Type 0} where
  pub query-IsReserved :
      (statement : Db → Result A × Db)
      → ((db : Db) → IsReserved job db → IsReserved job (statement db).1)
      → (db : Db) → IsReserved job db
      → IsReserved job (query statement db).1
  query-IsReserved statement keeps =
      query_rule (IsReserved job) (λ r. IsReserved job r.1) statement (IsReserved-survives job)
        keeps (λ db e h. h) (λ db e h. keeps db h)

  pub pure-Quiet : (a : A) → Quiet job (pure a)
  pure-Quiet a = record { at = λ w. (refl, λ h. h) }

  pub fail-Quiet : (e : Error) → Quiet job (fail {A = A} e)
  fail-Quiet e = record { at = λ w. (refl, λ h. h) }

  pub wrapping-Quiet :
      (m : Text) (act : Action World A) → Quiet job act → Quiet job (wrapping m act)
  wrapping-Quiet m act q = record { at = λ w. q.at w }

  pub on_db-Quiet :
      (act : Action Db A)
      → ((db : Db) → IsReserved job db → IsReserved job (act db).1)
      → Quiet job (on_db act)
  on_db-Quiet act keeps = record { at = λ w. (refl, keeps w.db) }

module _ (job : ℕ) {A B : Type 0} where
  pub continue-Quiet :
      (r : Result A) (f : A → Action World B)
      → ((a : A) → Quiet job (f a))
      → Quiet job (continue r f)
  continue-Quiet (ok a) f q = q a
  continue-Quiet (err e) f q = record { at = λ w. (refl, λ h. h) }

  pub bind-Quiet :
      (m : Action World A) (f : A → Action World B)
      → Quiet job m
      → ((a : A) → Quiet job (f a))
      → Quiet job (m >>= f)
  bind-Quiet m f qm qf = record {
    at = λ w.
        let (same, kept) = qm.at w in
        let (same', kept') = (continue-Quiet (m w).0 f qf).at (m w).1 in
        (same' ∙ same, λ h. kept' (kept h));
  }
