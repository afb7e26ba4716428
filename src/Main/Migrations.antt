-- ===== src/Main/Migrations.antt =====
-- cmd/agent-frei/main.go: runMigrations, over the embedded directory and what a script does.
use agent_frei_igi.Prelude.{Text, bytes, List, Result, ok, err, Action, fail, wrapping}
use agent_frei_igi.Config.{Config}
use agent_frei_igi.Store.Migrate.{Entry, Schema, migrate}
use agent_frei_igi.Main.{Outside, required_store}

module _ {S : Type 0} (exec : Text → S → Result S) (directory : Result (List Entry)) where
  abbrev migrate_if : Result (Unit {0}) → Action (Schema S) (Unit {0})
  migrate_if (ok u) = wrapping (bytes "Migration execution failed") (migrate exec directory)
  migrate_if (err e) = fail e

  -- runMigrations
  unfoldable pub run_migrations : Outside → Result Config → Action (Schema S) (Unit {0})
  run_migrations x (err e) = fail e
  run_migrations x (ok cfg) = migrate_if (required_store x cfg)
