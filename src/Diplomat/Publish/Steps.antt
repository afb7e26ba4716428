-- ===== src/Diplomat/Publish/Steps.antt =====
-- The statements and requests of Publish, but for the review itself.
use agent_frei_igi.Prelude.{
  ℕ, ◌≡◌, refl, ap, ◌∙◌, Bool, true, false, Text, Option, none, List, length, arith,
}
use agent_frei_igi.Domain.{PublisherKind}
use agent_frei_igi.Store.Publications
use agent_frei_igi.Store.Publications.{
  reserved, of_job, reserved-update, publish_row, fail_publication_row,
}
use agent_frei_igi.Store.Db
use agent_frei_igi.Store.Db.{Db, query}
use agent_frei_igi.Store.Db.Rules.{IsReserved}
use agent_frei_igi.Store.Publishing
use agent_frei_igi.Store.Publishing.{insert_publication, publication_references, unique_or_wrapped}
use agent_frei_igi.GithubApp.{Client, Post, get_installation_token}
use agent_frei_igi.World.{on_db, on_github}
use agent_frei_igi.Diplomat.Publish.Quiet.{Quiet, query-IsReserved, on_db-Quiet}
use agent_frei_igi.Diplomat.Publish.Grant.{begin_statement, begin_statement-kept}

module _ (job : ℕ) (account : Option ℕ) (kind : PublisherKind) where
  pub begin-Quiet : Quiet job (on_db (Publishing.begin_publication job account kind))
  unfolding Publishing.begin_publication
  begin-Quiet = on_db-Quiet job (Publishing.begin_publication job account kind) (
      query-IsReserved job (begin_statement job account kind)
        (begin_statement-kept job account kind))

module _ (job : ℕ) where
  pub get_publication-Quiet : Quiet job (on_db (Publishing.get_publication job))
  unfolding Publishing.get_publication
  get_publication-Quiet =
      on_db-Quiet job (Publishing.get_publication job) (query-IsReserved job _ (λ db h. h))

  pub get_account-Quiet : (login : Text) → Quiet job (on_db (Publishing.get_account_by_login login))
  unfolding Publishing.get_account_by_login
  get_account-Quiet login =
      on_db-Quiet job (Publishing.get_account_by_login login) (query-IsReserved job _ (λ db h. h))

  pub get_installation-Quiet : (id : ℕ) → Quiet job (on_db (Db.get_installation id))
  unfolding Db.get_installation
  get_installation-Quiet id =
      on_db-Quiet job (Db.get_installation id) (query-IsReserved job _ (λ db h. h))

  pub fail_publication-Quiet :
      (msg : Text) → Quiet job (on_db (Publishing.fail_publication job msg))
  unfolding Publishing.fail_publication Publications.fail_publication
  fail_publication-Quiet msg = on_db-Quiet job (Publishing.fail_publication job msg) (
      query-IsReserved job _ λ db h.
        reserved-update job (of_job job) (fail_publication_row db.now) db.publications (λ a. refl)
        ∙ h)

  pub finalize-keeps :
      (review : Option ℕ) (dry_run : Bool) (db : Db)
      → IsReserved job db
      → reserved job (Publications.finalize_publication db.now job review dry_run db.publications)
        ≡ true
  unfolding Publications.finalize_publication
  finalize-keeps review true db h =
      reserved-update job (of_job job) (publish_row db.now none) db.publications (λ a. refl) ∙ h
  finalize-keeps review false db h =
      reserved-update job (of_job job) (publish_row db.now review) db.publications (λ a. refl) ∙ h

  pub finalize-Quiet :
      (review : Option ℕ) (dry_run : Bool)
      → Quiet job (on_db (Publishing.finalize_publication job review dry_run))
  unfolding Publishing.finalize_publication
  finalize-Quiet review dry_run =
      on_db-Quiet job (Publishing.finalize_publication job review dry_run)
        (query-IsReserved job _ (finalize-keeps review dry_run))

-- Asking for a token sends no review.
pub posts-get_token : (id : ℕ) (c : Client) → (get_installation_token id c).1.posts ≡ c.posts
unfolding get_installation_token
posts-get_token id c = ground arith

pub get_token-Quiet : (job id : ℕ) → Quiet job (on_github (get_installation_token id))
get_token-Quiet job id = record {
  at = λ w. (ap (λ (ps : List Post). length ps) (posts-get_token id w.github), λ h. h);
}
