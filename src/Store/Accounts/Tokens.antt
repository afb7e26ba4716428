-- ===== src/Store/Accounts/Tokens.antt =====
-- UpsertAccountToken (internal/store/postgres/store.go) and the lookups after it.
use agent_frei_igi.Prelude.{
  ℕ, ◌≡◌, refl, true, false, Text, text_eq, text_eq_refl, Option, some, [], ◌∷◌, ◌++◌, inl, inr,
  Bool-cases,
}
use agent_frei_igi.Domain.{GitHubAccount, active}
use agent_frei_igi.Store.Rows.{update_where, any_row, first_row}
use agent_frei_igi.Store.Accounts.{
  Accounts, has_login, get_account_by_login, new_account, set_token, upsert_account_token,
}

-- The row that a lookup finds after the token was stored.
pub record Stores (login token : Text) (expires : Option ℕ) (found : Option GitHubAccount)
    : Type 0 where
  pub row : GitHubAccount
  pub is_found : found ≡ some row
  pub same_token : row.access_token_enc ≡ token
  pub same_expiry : row.token_expires_at ≡ expires
  pub is_active : row.status ≡ active
  pub same_login : text_eq row.github_login login ≡ true

module _ (fresh now : ℕ) (login token : Text) (expires : Option ℕ) where
  updated-Stores :
      (accounts : Accounts)
      → any_row (has_login login) accounts ≡ true
      → Stores login token expires (
          first_row
            (has_login login)
            (update_where (has_login login) (set_token now token expires) accounts))
  updated-Stores [] h = cc
  updated-Stores (a ∷ as') h = elim (Bool-cases (has_login login a)) [
    | inl here ↦ record {
      row = set_token now token expires a;
      is_found = rw (here, here) refl;
      same_token = refl;
      same_expiry = refl;
      is_active = refl;
      same_login = here;
    }
    | inr other ↦ rw (other, other) (updated-Stores as' (rw other at h))
  ]

  appended-Stores :
      (accounts : Accounts)
      → any_row (has_login login) accounts ≡ false
      → Stores login token expires
          (first_row (has_login login) (accounts ++ new_account fresh now login token expires ∷ []))
  appended-Stores [] h = record {
    row = new_account fresh now login token expires;
    is_found = rw (text_eq_refl login) refl;
    same_token = refl;
    same_expiry = refl;
    is_active = refl;
    same_login = text_eq_refl login;
  }
  appended-Stores (a ∷ as') h = elim (Bool-cases (has_login login a)) [
    | inl here ↦ absurd (cc (rw here at h))
    | inr other ↦ rw other (appended-Stores as' (rw other at h))
  ]

  -- After a token is stored for a login, a lookup by that login finds an active account with this token and
  -- expiry, whether the account existed before or not, disabled or not.
  pub upsert-Stores :
      (accounts : Accounts)
      → Stores login token expires
          (get_account_by_login login (upsert_account_token fresh now login token expires accounts))
  unfolding get_account_by_login upsert_account_token
  upsert-Stores accounts = elim (Bool-cases (any_row (has_login login) accounts)) [
    | inl known ↦ rw known (updated-Stores accounts known)
    | inr new ↦ rw new (appended-Stores accounts new)
  ]
