-- ===== src/Store/Open.antt =====
-- internal/store/postgres/store.go: New, over what the driver answers.
use agent_frei_igi.Prelude.{Text, bytes, is_empty, Result, ok, err, message, wrap, if◌then◌else◌}

-- sql.Open and Ping, for a database URL
pub record Driver : Type 0 where
  pub open_database : Text → Result (Unit {0})
  pub ping : Text → Result (Unit {0})

abbrev pinged : Result (Unit {0}) → Result (Unit {0}) → Result (Unit {0})
pinged (ok u) answer = wrap (bytes "failed to ping database") answer
pinged (err e) answer = err e

-- New
unfoldable pub new : Driver → Text → Result (Unit {0})
new d url =
    if is_empty url
    then err (message (bytes "database URL cannot be empty"))
    else pinged (wrap (bytes "failed to open database") (d.open_database url)) (d.ping url)
