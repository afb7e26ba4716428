-- ===== src/Http/Server.antt =====
-- internal/httpserver/server.go: the routes, and the health check. A path is one that ServeMux does not
-- redirect to a cleaner one. A reply is its status.
pub mod Guarded
use agent_frei_igi.Prelude.{
  ℕ, Bool, true, false, not, Text, bytes, text_eq, has_prefix, Result, if◌then◌else◌, List, Option,
  none, [],
}
use agent_frei_igi.GithubApp.{Reply}
use agent_frei_igi.Http.Webhooks.{Endpoint, Delivery, github_webhook_handler}
use agent_frei_igi.Http.Oauth.{
  OauthConfig, ServerState, Request, TokenAnswer, oauth_start_handler, oauth_callback_handler,
  admin_accounts_handler, admin_accounts_action_handler,
}
use agent_frei_igi.Store.Db.{Db}

-- Server: its settings, with those of the two kinds of handlers
pub record Server : Type 0 where
  pub endpoint : Endpoint
  pub oauth : OauthConfig

-- New: the maps are empty.
unfoldable pub new : Db → ServerState
new db = record { states = []; limits = []; db = db }

pub data Route : Type 0 where
  healthz webhooks oauth_start oauth_callback admin_accounts account_action not_found : Route

-- The patterns of Start; the last one is a subtree.
unfoldable pub route_of : Text → Route
route_of path =
    if text_eq path (bytes "/healthz")
    then healthz
    else if text_eq path (bytes "/webhooks/github")
    then webhooks
    else if text_eq path (bytes "/oauth/github/start")
    then oauth_start
    else if text_eq path (bytes "/oauth/github/callback")
    then oauth_callback
    else if text_eq path (bytes "/admin/accounts")
    then admin_accounts
    else if has_prefix path (bytes "/admin/accounts/")
    then account_action
    else not_found

-- healthzHandler
unfoldable pub healthz_handler : Bool → ℕ
healthz_handler is_get = if not is_get then 405 else 200

-- A request, with the time, the state that the start handler draws, the query of a callback and what
-- GitHub replies meanwhile.
pub record Incoming : Type 0 where
  pub request : Request
  pub delivery : Delivery
  pub now : ℕ
  pub drawn : Text
  pub code : Text
  pub state : Text
  pub token_reply : Reply TokenAnswer
  pub user_reply : Reply Text

abbrev on_database : (Db → ℕ × Db) → ServerState → ℕ × ServerState
on_database act s = let (status, db) = act s.db in (status, record s { db = db })

-- The handler of a route
abbrev pub handler : Server → Incoming → Route → ServerState → ℕ × ServerState
handler srv r healthz s = (healthz_handler r.request.is_get, s)
handler srv r webhooks s = on_database (github_webhook_handler srv.endpoint r.delivery) s
handler srv r oauth_start s = oauth_start_handler srv.oauth r.now r.drawn r.request s
handler srv r oauth_callback s =
    oauth_callback_handler srv.oauth r.now r.request r.code r.state r.token_reply r.user_reply s
handler srv r admin_accounts s =
    let (reply, s') = admin_accounts_handler srv.oauth r.request s in (reply.0, s')
handler srv r account_action s = admin_accounts_action_handler srv.oauth r.request s
handler srv r not_found s = (404, s)

-- Start: what a request that arrives is answered.
unfoldable pub serve : Server → Incoming → ServerState → ℕ × ServerState
serve srv r s = handler srv r (route_of r.request.path) s
