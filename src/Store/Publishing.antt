-- ===== src/Store/Publishing.antt =====
-- The methods of `Store` on publications and accounts, as actions on the database.
use agent_frei_igi.Prelude.{
  ℕ, suc, Option, List, Bool, true, false, Text, bytes, message, wrapped, publication_exists,
  Result, ok, err, Action, wrapping, is_some, ◌&&◌, get_or_else, ◌++◌,
}
use agent_frei_igi.Domain.{GitHubAccount, AccountStatus, ReviewPublication, PublisherKind}
use agent_frei_igi.Store.Jobs
use agent_frei_igi.Store.Publications
use agent_frei_igi.Store.Accounts
use agent_frei_igi.Store.Db.{Db, query}

-- review_publications.job_id REFERENCES review_jobs(id), publisher_account_id REFERENCES
-- github_accounts(id)
unfoldable pub publication_references : ℕ → Option ℕ → Db → Bool
publication_references job account db =
    is_some (Jobs.get_job job db.jobs)
    && get_or_else true account (λ a. Accounts.id_exists a db.accounts)

abbrev pub insert_publication :
    Bool → Result ReviewPublication × Publications.Publications → Db → Result ReviewPublication × Db
insert_publication refs (err e, rows) db = (err e, record db { serial = suc db.serial })
insert_publication true (ok row, rows) db =
    (ok row, record db { publications = rows; serial = suc db.serial })
insert_publication false (ok row, rows) db =
    (err (message (bytes "foreign key violation")), record db { serial = suc db.serial })

abbrev pub unique_or_wrapped : Result ReviewPublication → Result ReviewPublication
unique_or_wrapped (ok row) = ok row
unique_or_wrapped (err publication_exists) = err publication_exists
unique_or_wrapped (err e) = err (wrapped (bytes "failed to begin publication") e)

-- BeginPublication
unfoldable pub begin_publication : ℕ → Option ℕ → PublisherKind → Action Db ReviewPublication
unfolding publication_references
begin_publication job account kind db =
    let (r, db') =
      query
        (λ d.
          insert_publication (publication_references job account d)
            (Publications.begin_publication d.serial d.now job account kind d.publications) d)
        db in
    (unique_or_wrapped r, db')

-- FinalizePublication
unfoldable pub finalize_publication : ℕ → Option ℕ → Bool → Action Db (Unit {0})
finalize_publication job review dry_run = wrapping (bytes "failed to finalize publication") (
    query λ db. (
      ok tt,
      record db {
        publications = Publications.finalize_publication db.now job review dry_run db.publications;
      },
    ))

-- FailPublication; the error message is not stored.
unfoldable pub fail_publication : ℕ → Text → Action Db (Unit {0})
fail_publication job msg = wrapping (bytes "failed to fail publication") (
    query λ db. (
      ok tt,
      record db { publications = Publications.fail_publication db.now job db.publications },
    ))

-- GetPublication
unfoldable pub get_publication : ℕ → Action Db (Option ReviewPublication)
get_publication job =
    wrapping (bytes "failed to get publication")
      (query λ db. (ok (Publications.get_publication job db.publications), db))

-- GetAccountByLogin
unfoldable pub get_account_by_login : Text → Action Db (Option GitHubAccount)
get_account_by_login login =
    wrapping (bytes "failed to get account")
      (query λ db. (ok (Accounts.get_account_by_login login db.accounts), db))

-- CreateAccount
unfoldable pub create_account : GitHubAccount → Action Db GitHubAccount
create_account acc = wrapping (bytes "failed to create account") (
    query λ db.
      let (r, rows) = Accounts.create_account db.serial db.now acc db.accounts in
      (r, record db { accounts = rows; serial = suc db.serial }))

-- CountAccounts
unfoldable pub count_accounts : Action Db ℕ
count_accounts =
    wrapping (bytes "failed to count accounts")
      (query λ db. (ok (Accounts.count_accounts db.accounts), db))

-- UpsertAccountToken
unfoldable pub upsert_account_token : Text → Text → Option ℕ → Action Db (Unit {0})
upsert_account_token login token expires = wrapping (bytes "failed to upsert account token") (
    query λ db. (
      ok tt,
      record db {
        accounts = Accounts.upsert_account_token db.serial db.now login token expires db.accounts;
        serial = suc db.serial;
      },
    ))

-- ListAccounts
unfoldable pub list_accounts : Action Db (List GitHubAccount)
list_accounts =
    wrapping (bytes "failed to list accounts")
      (query λ db. (ok (Accounts.list_accounts db.accounts), db))

abbrev found_or_error : Text → Result Bool → Result (Unit {0})
found_or_error login (ok true) = ok tt
found_or_error login (ok false) = err (message (bytes "account not found: " ++ login))
found_or_error login (err e) = err (wrapped (bytes "failed to set account status") e)

-- SetAccountStatus
unfoldable pub set_account_status : Text → AccountStatus → Action Db (Unit {0})
set_account_status login status db =
    let (r, db') =
      query
        (λ d.
          let (b, rows) = Accounts.set_account_status d.now login status d.accounts in
          (ok b, record d { accounts = rows }))
        db in
    (found_or_error login r, db')
