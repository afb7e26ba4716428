-- ===== src/Store/Accounts.antt =====
-- internal/store/postgres/store.go, the statements on `github_accounts`, and the one of
-- `runSeedAccount` in cmd/agent-frei/main.go.
pub mod Tokens
use agent_frei_igi.Prelude.{
  ℕ, Option, none, List, [], ◌∷◌, ◌++◌, Bool, true, false, Text, bytes, text_eq, ltb, ◌==◌, message,
  Result, ok, err, if◌then◌else◌,
}
use agent_frei_igi.Domain.{GitHubAccount, AccountStatus, active}
use agent_frei_igi.Store.Rows.{update_where, rows_where, any_row, first_row}

abbrev pub Accounts : Type 0
Accounts = List GitHubAccount

abbrev pub has_login : Text → GitHubAccount → Bool
has_login login a = text_eq a.github_login login

-- GetAccountByLogin
unfoldable pub get_account_by_login : Text → Accounts → Option GitHubAccount
get_account_by_login login = first_row (has_login login)

-- CreateAccount; github_login is UNIQUE
unfoldable pub create_account : ℕ → ℕ → GitHubAccount → Accounts → Result GitHubAccount × Accounts
create_account fresh now acc accounts =
    let row = record acc { id = fresh; created_at = now; updated_at = now } in
    if any_row (has_login acc.github_login) accounts
    then (err (message (bytes "duplicate key value")), accounts)
    else (ok row, accounts ++ row ∷ [])

abbrev pub is_active : AccountStatus → Bool
is_active AccountStatus.active = true
is_active _ = false

-- CountAccounts
unfoldable pub count_accounts : Accounts → ℕ
count_accounts = rows_where (λ a. is_active a.status)

-- A row that INSERT makes of a login and a token.
abbrev pub new_account : ℕ → ℕ → Text → Text → Option ℕ → GitHubAccount
new_account fresh now login token expires = record {
  id = fresh;
  github_login = login;
  access_token_enc = token;
  token_expires_at = expires;
  status = active;
  last_used_at = none;
  created_at = now;
  updated_at = now;
}

abbrev pub set_token : ℕ → Text → Option ℕ → GitHubAccount → GitHubAccount
set_token now token expires a = record a {
  access_token_enc = token;
  token_expires_at = expires;
  status = active;
  updated_at = now;
}

-- UpsertAccountToken: ON CONFLICT (github_login) DO UPDATE
unfoldable pub upsert_account_token : ℕ → ℕ → Text → Text → Option ℕ → Accounts → Accounts
upsert_account_token fresh now login token expires accounts =
    if any_row (has_login login) accounts
    then update_where (has_login login) (set_token now token expires) accounts
    else accounts ++ new_account fresh now login token expires ∷ []

-- The statement of `runSeedAccount`: an existing row keeps its expiry.
unfoldable pub seed_account : ℕ → ℕ → Text → Text → Accounts → Accounts
seed_account fresh now login token accounts =
    if any_row (has_login login) accounts
    then update_where (has_login login)
        (λ a. record a { access_token_enc = token; status = active; updated_at = now }) accounts
    else accounts ++ new_account fresh now login token none ∷ []

-- SetAccountStatus; the boolean says whether a row was affected.
unfoldable pub set_account_status : ℕ → Text → AccountStatus → Accounts → Bool × Accounts
set_account_status now login status accounts = (
  ltb 0 (rows_where (has_login login) accounts),
  update_where (has_login login) (λ a. record a { status = status; updated_at = now }) accounts,
)

-- The order of texts byte by byte.
unfoldable pub text_lt : Text → Text → Bool
text_lt s [] = false
text_lt [] (b ∷ t) = true
text_lt (a ∷ s) (b ∷ t) = let rest = text_lt s t in if a == b then rest else ltb a b

-- Puts a row in its place: ORDER BY github_login ASC.
unfoldable pub insert_by_login : GitHubAccount → Accounts → Accounts
unfolding text_lt
insert_by_login a [] = a ∷ []
insert_by_login a (b ∷ bs) =
    if text_lt b.github_login a.github_login then b ∷ insert_by_login a bs else a ∷ b ∷ bs

-- The columns that ListAccounts selects: neither the token nor its expiry.
abbrev listed : GitHubAccount → GitHubAccount
listed a = record a { access_token_enc = []; token_expires_at = none }

-- ListAccounts
unfoldable pub list_accounts : Accounts → Accounts
unfolding insert_by_login
list_accounts [] = []
list_accounts (a ∷ as') = insert_by_login (listed a) (list_accounts as')

-- The foreign key that jobs and publications have to an account.
unfoldable pub id_exists : ℕ → Accounts → Bool
id_exists id = any_row (λ a. a.id == id)
