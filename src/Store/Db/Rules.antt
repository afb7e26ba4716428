-- ===== src/Store/Db/Rules.antt =====
-- Rules for one round trip to the server: what holds of the database before it, whatever others do
-- meanwhile, and of the reply and the database after it.
use agent_frei_igi.Prelude.{◌≡◌, true, List, [], ◌∷◌, Result, err, ℕ, Error}
use agent_frei_igi.Store.Db.{
  Db, Moment, Link, up, down, unacknowledged, pass, deliver, at_moment, query,
}
use agent_frei_igi.Store.Publications.{
  run_publications, run_publication, run_publication-reserved, reserved, Publications,
  PublicationCommand,
}

-- Others' moments keep a property of the database.
abbrev pub Survives : (Db → Type 0) → Type 0
Survives P = (m : Moment) (ms : List Moment) (db : Db) → P db → P (pass m ms db)

module _ {A : Type 0} (P : Db → Type 0) (Q : Result A × Db → Type 0)
    (statement : Db → Result A × Db) where
  -- A reply that is lost leaves what the statement did.
  pub query_rule :
      Survives P
      → ((db : Db) → P db → Q (statement db))
      → ((db : Db) (e : Error) → P db → Q (err e, db))
      → ((db : Db) (e : Error) → P db → Q (err e, (statement db).1))
      → (db : Db) → P db
      → Q (query statement db)
  unfolding query
  query_rule survives runs lost unheard db h = go db.moments
    where
      deliver_rule : (l : Link) (d : Db) → P d → Q (deliver l statement d)
      deliver_rule up d p = runs d p
      deliver_rule (down e) d p = lost d e p
      deliver_rule (unacknowledged e) d p = unheard d e p

      go : (ms : List Moment) → Q (at_moment ms statement db)
      go [] = runs db h
      go (m ∷ ms) = deliver_rule m.link (pass m ms db) (survives m ms db h)

-- The slot of a job is taken.
abbrev pub IsReserved : ℕ → Db → Type 0
IsReserved job db = reserved job db.publications ≡ true

run_publications-reserved :
    (job : ℕ) (cs : List PublicationCommand) (pubs : Publications)
    → reserved job pubs ≡ true
    → reserved job (run_publications cs pubs) ≡ true
unfolding run_publications
run_publications-reserved job [] pubs h = h
run_publications-reserved job (c ∷ cs) pubs h =
    run_publications-reserved job cs (run_publication c pubs)
      (run_publication-reserved job c pubs h)

pub IsReserved-survives : (job : ℕ) → Survives (IsReserved job)
unfolding pass
IsReserved-survives job m ms db h = run_publications-reserved job m.publishers db.publications h
