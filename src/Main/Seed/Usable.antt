-- ===== src/Main/Seed/Usable.antt =====
-- runSeedAccount (cmd/agent-frei/main.go), and the token that Publish (internal/diplomat/publish.go)
-- finds for the seeded login.
use agent_frei_igi.Prelude.{
  ℕ, suc, ◌≡◌, refl, true, false, ◌||◌, Text, bytes, text_eq_refl, is_empty, length, Option, none,
  some, List, [], ◌∷◌, ◌++◌, Result, ok, err, wrap, arith, inl, inr, Bool-cases,
}
use agent_frei_igi.Domain.{GitHubAccount, active}
use agent_frei_igi.Config.{Config, parse_token_key}
use agent_frei_igi.Crypto.{Aead, encrypt, decrypt-encrypt, nonce_size}
use agent_frei_igi.Store.Rows.{update_where, any_row, first_row}
use agent_frei_igi.Store.Accounts.{
  Accounts, has_login, get_account_by_login, new_account, seed_account,
}
use agent_frei_igi.Store.Db.{Db}
use agent_frei_igi.Store.Db.Rules.{query_rule}
use agent_frei_igi.Store.Open.{new}
use agent_frei_igi.Main.{Outside}
use agent_frei_igi.Main.Worker.{publisher_config}
use agent_frei_igi.Main.Seed.{
  SeedArgs, parse_args, no_args, seed, keyed, seed_with, with_settings, run_seed_account,
}
use agent_frei_igi.Diplomat.Publish.{usable, token_of_account}

-- The row that a lookup finds after an account was seeded.
pub record IsSeeded (login enc : Text) (found : Option GitHubAccount) : Type 0 where
  pub row : GitHubAccount
  pub is_found : found ≡ some row
  pub same_token : row.access_token_enc ≡ enc
  pub is_active : row.status ≡ active

module _ (fresh now : ℕ) (login enc : Text) where
  abbrev reseeded : GitHubAccount → GitHubAccount
  reseeded a = record a { access_token_enc = enc; status = active; updated_at = now }

  updated-IsSeeded :
      (accounts : Accounts)
      → any_row (has_login login) accounts ≡ true
      → IsSeeded login enc
          (first_row (has_login login) (update_where (has_login login) reseeded accounts))
  updated-IsSeeded [] h = cc
  updated-IsSeeded (a ∷ as') h = elim (Bool-cases (has_login login a)) [
    | inl here ↦ record {
      row = reseeded a;
      is_found = rw (here, here) refl;
      same_token = refl;
      is_active = refl;
    }
    | inr other ↦ rw (other, other) (updated-IsSeeded as' (rw other at h))
  ]

  appended-IsSeeded :
      (accounts : Accounts)
      → any_row (has_login login) accounts ≡ false
      → IsSeeded login enc
          (first_row (has_login login) (accounts ++ new_account fresh now login enc none ∷ []))
  appended-IsSeeded [] h = record {
    row = new_account fresh now login enc none;
    is_found = rw (text_eq_refl login) refl;
    same_token = refl;
    is_active = refl;
  }
  appended-IsSeeded (a ∷ as') h = elim (Bool-cases (has_login login a)) [
    | inl here ↦ absurd (cc (rw here at h))
    | inr other ↦ rw other (appended-IsSeeded as' (rw other at h))
  ]

  seed_account-IsSeeded :
      (accounts : Accounts)
      → IsSeeded login enc (get_account_by_login login (seed_account fresh now login enc accounts))
  unfolding get_account_by_login seed_account
  seed_account-IsSeeded accounts = elim (Bool-cases (any_row (has_login login) accounts)) [
    | inl known ↦ rw known (updated-IsSeeded accounts known)
    | inr new ↦ rw new (appended-IsSeeded accounts new)
  ]

-- A statement that was answered has run.
abbrev SeededBy : Text → Text → Result (Unit {0}) × Db → Type 0
SeededBy login enc out =
    out.0 ≡ ok tt → IsSeeded login enc (get_account_by_login login out.1.accounts)

wrap-ok : (m : Text) (r : Result (Unit {0})) → wrap m r ≡ ok tt → r ≡ ok tt
wrap-ok m (ok u) h = refl
wrap-ok m (err e) h = cc

seed-SeededBy : (login enc : Text) (db : Db) → SeededBy login enc (seed login enc db)
unfolding seed
seed-SeededBy login enc db h =
    query_rule (λ d. Unit {0}) (SeededBy login enc)
      (λ d. (
        ok tt,
        record d {
          accounts = seed_account d.serial d.now login enc d.accounts;
          serial = suc d.serial;
        },
      ))
      (λ m ms d u. tt) (λ d u e. seed_account-IsSeeded d.serial d.now login enc d.accounts)
      (λ d e u h. cc) (λ d e u h. cc) db tt
      (wrap-ok (bytes "Failed to seed account to database") _ h)

-- What is known after the command has succeeded.
pub record Seeded (x : Outside) (nonce : Result Text) (args : SeedArgs) (cfg : Config) (db : Db)
    : Type 0 where
  pub key : Text
  pub drawn : Text
  pub has_key : parse_token_key cfg ≡ ok key
  pub has_nonce : nonce ≡ ok drawn
  pub stored :
      IsSeeded args.login
        (encrypt (x.aead key) drawn args.token)
        (get_account_by_login args.login db.accounts)

encrypt-present :
    (a : Aead) (nonce plain : Text)
    → length nonce ≡ nonce_size
    → is_empty (encrypt a nonce plain) ≡ false
unfolding encrypt
encrypt-present a [] plain h = absurd (omega (arith, h))
encrypt-present a (c ∷ nonce) plain h = refl

module _ (x : Outside) (nonce : Result Text) (args : SeedArgs) (cfg : Config) where
  -- The key, the nonce and the connection in turn.
  steps-Seeded :
      (k n : Result Text) (o : Result (Unit {0})) (db : Db)
      → parse_token_key cfg ≡ k
      → nonce ≡ n
      → (keyed x n args k o db).0 ≡ ok tt
      → Seeded x nonce args cfg (keyed x n args k o db).1
  unfolding keyed
  steps-Seeded (err e) n o db ek en h = cc
  steps-Seeded (ok key) (err e) o db ek en h = cc
  steps-Seeded (ok key) (ok drawn) (err e) db ek en h = cc
  steps-Seeded (ok key) (ok drawn) (ok u) db ek en h = record {
    key = key;
    drawn = drawn;
    has_key = ek;
    has_nonce = en;
    stored = seed-SeededBy args.login (encrypt (x.aead key) drawn args.token) db h;
  }

  seed_with-Seeded :
      (db : Db)
      → (seed_with x nonce args cfg db).0 ≡ ok tt
      → Seeded x nonce args cfg (seed_with x nonce args cfg db).1
  unfolding seed_with
  seed_with-Seeded db h = elim (Bool-cases (is_empty cfg.database_url)) [
    | inl unset ↦ absurd (cc (rw unset at h))
    | inr set ↦ rw set (
        steps-Seeded (parse_token_key cfg) nonce (new x.driver cfg.database_url) db refl refl
          (rw set at h))
  ]

  -- What Publish makes of the account.
  Seeded-usable :
      (db : Db)
      → (s : Seeded x nonce args cfg db) → length s.drawn ≡ nonce_size
      → (id : ℕ) × (token_of_account
            (publisher_config x cfg)
            (get_account_by_login args.login db.accounts)
          ≡ ok (usable args.token id))
  unfolding publisher_config
  Seeded-usable db s size =
      let row = s.stored.row in
      let long = encrypt-present (x.aead s.key) s.drawn args.token size in
      (
        row.id,
        rw
            (
              s.stored.is_found,
              s.stored.same_token,
              long,
              s.has_key,
              decrypt-encrypt (x.aead s.key) s.drawn args.token size,
            )
            refl,
      )

-- The settings were read, and Publish under these settings gets the seeded token for the login.
pub record IsUsable (x : Outside) (args : SeedArgs) (loaded : Result Config) (db : Db)
    : Type 0 where
  pub cfg : Config
  pub was_loaded : loaded ≡ ok cfg
  pub id : ℕ
  pub token :
      token_of_account (publisher_config x cfg) (get_account_by_login args.login db.accounts)
      ≡ ok (usable args.token id)

-- What crypto/rand promises of a nonce that was read.
abbrev pub NonceSized : Result Text → Type 0
NonceSized nonce = (drawn : Text) → nonce ≡ ok drawn → length drawn ≡ nonce_size

with_settings-IsUsable :
    (x : Outside) (nonce : Result Text) (args : SeedArgs) (loaded : Result Config) (db : Db)
    → NonceSized nonce
    → (with_settings x nonce args loaded db).0 ≡ ok tt
    → IsUsable x args loaded (with_settings x nonce args loaded db).1
with_settings-IsUsable x nonce args (err e) db sized h = cc
with_settings-IsUsable x nonce args (ok cfg) db sized h =
    let s = seed_with-Seeded x nonce args cfg db h in
    let (id, token) =
      Seeded-usable x nonce args cfg (seed_with x nonce args cfg db).1 s
        (sized s.drawn s.has_nonce) in
    record { cfg = cfg; was_loaded = refl; id = id; token = token }

-- After a successful seed-account, with a nonce of twelve bytes, a worker with the same settings finds the given token, decrypted, for
-- the given login; the row may have existed before, with any status and any token.
pub run_seed_account-IsUsable :
    (x : Outside) (nonce : Result Text) (words : List Text) (loaded : Result Config) (db : Db)
    → NonceSized nonce
    → (run_seed_account x nonce words loaded db).0 ≡ ok tt
    → IsUsable x (parse_args words no_args) loaded (run_seed_account x nonce words loaded db).1
unfolding run_seed_account
run_seed_account-IsUsable x nonce words loaded db sized h =
    let args = parse_args words no_args in
    elim (Bool-cases (is_empty args.login || is_empty args.token)) [
      | inl missing ↦ absurd (cc (rw missing at h))
      | inr given ↦ rw given (with_settings-IsUsable x nonce args loaded db sized (rw given at h))
    ]
