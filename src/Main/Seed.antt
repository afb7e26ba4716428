-- ===== src/Main/Seed.antt =====
-- cmd/agent-frei/main.go: runSeedAccount. The nonce is drawn when the token is encrypted; an error is
-- what log.Fatal prints before the process ends.
pub mod Usable
use agent_frei_igi.Prelude.{
  ℕ, suc, Bool, true, false, ◌||◌, Text, bytes, text_eq, is_empty, List, [], ◌∷◌, Result, ok, err,
  Error, message, wrap, wrapping, Action, fail, ◌>>=◌, if◌then◌else◌,
}
use agent_frei_igi.Config.{Config, parse_token_key}
use agent_frei_igi.Crypto.{encrypt}
use agent_frei_igi.Store.Accounts
use agent_frei_igi.Store.Db.{Db, query}
use agent_frei_igi.Store.Open.{new}
use agent_frei_igi.Main.{Outside}

pub record SeedArgs : Type 0 where
  pub login : Text
  pub token : Text

-- The loop over the arguments: a later value replaces an earlier one, anything else is passed over.
unfoldable pub parse_args : List Text → SeedArgs → SeedArgs
parse_args [] args = args
parse_args (a ∷ []) args = args
parse_args (a ∷ b ∷ rest) args = elim (text_eq a (bytes "--login")) [
  | true ↦ parse_args rest (record args { login = b })
  | false ↦ elim (text_eq a (bytes "--token")) [
    | true ↦ parse_args rest (record args { token = b })
    | false ↦ parse_args (b ∷ rest) args
  ]
]

abbrev pub no_args : SeedArgs
no_args = record { login = []; token = [] }

-- The statement
unfoldable pub seed : Text → Text → Action Db (Unit {0})
unfolding query
seed login enc = wrapping (bytes "Failed to seed account to database") (
    query λ db. (
      ok tt,
      record db {
        accounts = Accounts.seed_account db.serial db.now login enc db.accounts;
        serial = suc db.serial;
      },
    ))

module _ {A : Type 0} where
  abbrev given : Result A → Action Db A
  given r db = (r, db)

module _ (x : Outside) (nonce : Result Text) where
  abbrev sealed : Text → Text → Result Text → Result Text
  sealed key token (ok n) = ok (encrypt (x.aead key) n token)
  sealed key token (err e) = err e

  -- The key, the ciphertext, the connection, the statement.
  unfoldable pub keyed : SeedArgs → Result Text → Result (Unit {0}) → Action Db (Unit {0})
  keyed args key connection = do
    k ← given (wrap (bytes "Invalid TOKEN_ENCRYPTION_KEY config") key)
    enc ← given (wrap (bytes "Failed to encrypt access token") (sealed k args.token nonce))
    opened ← given (wrap (bytes "Failed to initialize database store") connection)
    seed args.login enc

  -- What follows the settings.
  unfoldable pub seed_with : SeedArgs → Config → Action Db (Unit {0})
  seed_with args cfg =
      if is_empty cfg.database_url
      then fail (message (bytes "DATABASE_URL environment variable is not set"))
      else keyed args (parse_token_key cfg) (new x.driver cfg.database_url)

  abbrev pub with_settings : SeedArgs → Result Config → Action Db (Unit {0})
  with_settings args (err e) = fail e
  with_settings args (ok cfg) = seed_with args cfg

  -- runSeedAccount
  unfoldable pub run_seed_account : List Text → Result Config → Action Db (Unit {0})
  run_seed_account words loaded =
      let args = parse_args words no_args in
      if is_empty args.login || is_empty args.token
      then fail (message (bytes "Usage: agent-frei seed-account --login <login> --token <token>"))
      else with_settings args loaded
