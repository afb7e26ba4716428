-- ===== src/Examples/Schema.antt =====
-- Migrations at concrete scripts: the tables are a number, which a script makes larger by its length.
use agent_frei_igi.Prelude.{
  ℕ, ◌+◌, refl, Text, bytes, text_eq, List, [], ◌∷◌, Result, ok, length, false, All, canceled,
}
use agent_frei_igi.Store.Db.{Link, up, unacknowledged}
use agent_frei_igi.Store.Migrate.{
  Entry, Schema, migrate, migrate_all, migrate_entry, apply, transaction, is_applied,
  insert_version, commit, create_tracking, touch, has_version,
}
use agent_frei_igi.Store.Migrate.Replay.{nothing, IsReplayed, migrate-IsReplayed}
use agent_frei_igi.Store.Migrate.Twice.{Recorded, Same, migrate_twice}

abbrev exec : Text → ℕ → Result ℕ
exec content n = ok (n + length content)

abbrev script : Text → Entry
script name = record { name = name; is_dir = false; content = ok (bytes "CREATE") }

abbrev scripts : List Entry
scripts = script (bytes "0001_init.sql") ∷ script (bytes "0002_publisher_login.sql") ∷ []

abbrev fresh : List Link → Schema ℕ
fresh links = record { tracked = false; versions = []; tables = 0; links = links }

-- The reply to the commit of the second script is lost.
abbrev unlucky : List Link
unlucky = up ∷ up ∷ up ∷ up ∷ up ∷ up ∷ up ∷ up ∷ up ∷ up ∷ unacknowledged canceled ∷ []

migrate-IsReplayed_example : IsReplayed exec scripts 0 (migrate exec (ok scripts) (fresh unlucky)).1
migrate-IsReplayed_example = migrate-IsReplayed exec scripts 0 (fresh unlucky) (nothing refl refl)

migrate_twice_example :
    let s = (migrate exec (ok scripts) (fresh [])).1 in
    All (Recorded s.versions) scripts
    × Same exec s (migrate exec (ok scripts) (record s { links = unlucky })).1
unfolding migrate create_tracking migrate_all migrate_entry is_applied touch has_version apply
    transaction insert_version commit text_eq
migrate_twice_example = migrate_twice exec scripts (fresh []) unlucky refl
