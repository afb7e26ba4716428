-- ===== src/Store/Migrate.antt =====
-- internal/store/postgres/store.go: Migrate. The tables are a value that scripts change; what a script
-- does is the server's answer. A statement reaches the server or not, as in Store.Db; one process at a
-- time migrates.
pub mod Replay
pub mod Twice
use agent_frei_igi.Prelude.{
  Bool, true, false, ◌||◌, Text, bytes, text_eq, List, [], ◌∷◌, ◌++◌, Result, ok, err, Error,
  message, wrap, Action, pure, fail, wrapping, ◌>>=◌, ◌>>◌, if◌then◌else◌,
}
use agent_frei_igi.Store.Db.{Link, up, down, unacknowledged}

-- A file or directory of migrations.FS, with what ReadFile gives.
pub record Entry : Type 0 where
  pub name : Text
  pub is_dir : Bool
  pub content : Result Text

-- `schema_migrations` with its versions in the order of their insertion, the other tables, and what
-- becomes of the statements to come.
pub record Schema (S : Type 0) : Type 0 where
  pub tracked : Bool
  pub versions : List Text
  pub tables : S
  pub links : List Link

unfoldable pub has_version : Text → List Text → Bool
has_version v [] = false
has_version v (w ∷ ws) = text_eq w v || has_version v ws

abbrev pub link_of : List Link → Link
link_of [] = up
link_of (l ∷ ls) = l

abbrev pub later : List Link → List Link
later [] = []
later (l ∷ ls) = ls

module _ {S A : Type 0} where
  abbrev pub lift : Result A → Action (Schema S) A
  lift r s = (r, s)

module _ {S : Type 0} where
  abbrev pub next : Schema S → Schema S
  next s = record s { links = later s.links }

  -- A statement that changes nothing for good: a query, or one inside a transaction.
  abbrev pub answered : Link → Schema S → Result (Unit {0}) × Schema S
  answered up s = (ok tt, s)
  answered (down e) s = (err e, s)
  answered (unacknowledged e) s = (err e, s)

  unfoldable pub touch : Action (Schema S) (Unit {0})
  touch s = answered (link_of s.links) (next s)

  -- A statement that changes the database by itself.
  abbrev pub settled : Link → (Schema S → Schema S) → Schema S → Result (Unit {0}) × Schema S
  settled up f s = (ok tt, f s)
  settled (down e) f s = (err e, s)
  settled (unacknowledged e) f s = (err e, f s)

  -- CREATE TABLE IF NOT EXISTS schema_migrations
  unfoldable pub create_tracking : Action (Schema S) (Unit {0})
  create_tracking s = settled (link_of s.links) (λ t. record t { tracked = true }) (next s)

  -- SELECT EXISTS
  unfoldable pub is_applied : Text → Action (Schema S) Bool
  is_applied v = touch >> λ s. (ok (has_version v s.versions), s)

  -- INSERT INTO schema_migrations, where `version` is the primary key
  unfoldable pub insert_version : Text → Action (Schema S) (Unit {0})
  insert_version v = touch >> λ s.
      (if has_version v s.versions then err (message (bytes "duplicate key value")) else ok tt, s)

  -- tx.Commit
  unfoldable pub commit : Text → S → Action (Schema S) (Unit {0})
  commit v tables s =
      settled (link_of s.links) (λ t. record t { versions = t.versions ++ v ∷ []; tables = tables })
        (next s)

module _ {S : Type 0} (exec : Text → S → Result S) where
  -- The transaction of one migration; an error before the commit rolls it back.
  unfoldable pub transaction : Text → Text → Action (Schema S) (Unit {0})
  transaction name content = do
    wrapping (bytes "failed to begin transaction") touch
    wrapping (bytes "failed to execute migration script") touch
    tables ← λ s. (wrap (bytes "failed to execute migration script") (exec content s.tables), s)
    wrapping (bytes "failed to insert migration version record") (insert_version name)
    wrapping (bytes "failed to commit transaction") (commit name tables)

  unfoldable pub apply : Entry → Action (Schema S) (Unit {0})
  apply e = lift (wrap (bytes "failed to read migration content") e.content) >>= transaction e.name

  abbrev pub apply_unless : Bool → Entry → Action (Schema S) (Unit {0})
  apply_unless true e = pure tt
  apply_unless false e = apply e

  -- One round of the loop
  unfoldable pub migrate_entry : Entry → Action (Schema S) (Unit {0})
  migrate_entry e = if e.is_dir then pure tt else do
    known ← wrapping (bytes "failed to check migration history") (is_applied e.name)
    apply_unless known e

  unfoldable pub migrate_all : List Entry → Action (Schema S) (Unit {0})
  migrate_all [] = pure tt
  migrate_all (e ∷ es) = migrate_entry e >> migrate_all es

  -- Migrate; `directory` is what ReadDir gives.
  unfoldable pub migrate : Result (List Entry) → Action (Schema S) (Unit {0})
  migrate directory = do
    wrapping (bytes "failed to initialize schema_migrations table") create_tracking
    entries ← lift (wrap (bytes "failed to read migrations directory") directory)
    migrate_all entries
