-- ===== src/World.antt =====
-- What a worker acts on: the database, the client of GitHub, and its job's context, with what happens
-- to that context between two looks at it.
use agent_frei_igi.Prelude.{Option, List, Action, Error}
use agent_frei_igi.Store.Db.{Db}
use agent_frei_igi.GithubApp.{Client}

-- The heartbeat's ticker fires, or the process is told to shut down.
pub data Signal : Type 0 where
  tick shutdown : Signal

pub record World : Type 0 where
  pub db : Db
  pub github : Client
  pub ctx_err : Option Error
  pub signals : List (List Signal)

module _ {A : Type 0} where
  abbrev pub on_db : Action Db A → Action World A
  on_db act w = let (r, db) = act w.db in (r, record w { db = db })

  abbrev pub on_github : Action Client A → Action World A
  on_github act w = let (r, c) = act w.github in (r, record w { github = c })
