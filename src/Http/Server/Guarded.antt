-- ===== src/Http/Server/Guarded.antt =====
-- Which requests to the server (internal/httpserver) can change the reviewers' accounts.
use agent_frei_igi.Prelude.{
  ℕ, ◌≡◌, refl, ap, ◌∙◌, arith, Bool, true, false, not, Text, bytes, split, trim_prefix, Result, ok,
  err, List, [], ◌∷◌, inl, inr, Bool-cases,
}
use agent_frei_igi.Store.Publishing
use agent_frei_igi.Store.Db.{Db, query, pass}
use agent_frei_igi.Store.Db.Rules.{query_rule}
use agent_frei_igi.Http.RateLimit.{allow_ip_rate_limit}
use agent_frei_igi.Http.Webhooks.{is_signed, unsigned_refused}
use agent_frei_igi.Http.Oauth.{
  OauthConfig, ServerState, Request, validate_admin, find_state, is_stale, start_counted,
  oauth_start_handler, oauth_callback_handler, admin_accounts_handler,
  admin_accounts_action_handler, admin_action, get_client_ip,
}
use agent_frei_igi.Http.Server.{
  Server, Incoming, Route, healthz, webhooks, oauth_start, oauth_callback, admin_accounts,
  account_action, not_found, route_of, handler, serve,
}

-- What entitles a request to change accounts, by its route.
abbrev pub entitled : Server → Incoming → Route → ServerState → Bool
entitled srv r webhooks s = is_signed srv.endpoint r.delivery.signature r.delivery.body
entitled srv r oauth_callback s = not (is_stale r.now (find_state r.state s.states))
entitled srv r account_action s = validate_admin srv.oauth r.request
entitled srv r _ s = false

module _ {A : Type 0} where
  -- A statement that only reads leaves the accounts; so do the others.
  query-accounts :
      (statement : Db → Result A × Db)
      → ((db : Db) → (statement db).1.accounts ≡ db.accounts)
      → (db : Db) → (query statement db).1.accounts ≡ db.accounts
  unfolding pass
  query-accounts statement reads db =
      query_rule (λ d. d.accounts ≡ db.accounts) (λ r. r.1.accounts ≡ db.accounts) statement
        (λ m ms d e. e) (λ d e. reads d ∙ e) (λ d x e. e) (λ d x e. reads d ∙ e) db refl

count_accounts-accounts : (db : Db) → (Publishing.count_accounts db).1.accounts ≡ db.accounts
unfolding Publishing.count_accounts
count_accounts-accounts = query-accounts _ (λ d. refl)

list_accounts-accounts : (db : Db) → (Publishing.list_accounts db).1.accounts ≡ db.accounts
unfolding Publishing.list_accounts
list_accounts-accounts = query-accounts _ (λ d. refl)

start_counted-accounts :
    (cfg : OauthConfig) (now : ℕ) (state : Text) (n : Result ℕ) (s : ServerState)
    → (start_counted cfg now state n s).1.db ≡ s.db
start_counted-accounts cfg now state (ok n) s = ground arith
start_counted-accounts cfg now state (err e) s = refl

start-accounts :
    (cfg : OauthConfig) (now : ℕ) (state : Text) (r : Request) (s : ServerState)
    → (oauth_start_handler cfg now state r s).1.db.accounts ≡ s.db.accounts
unfolding oauth_start_handler validate_admin
start-accounts cfg now state r s = elim (Bool-cases r.is_get) [
  | inr other ↦ rw other refl
  | inl get ↦ elim (Bool-cases (validate_admin cfg r)) [
    | inr stranger ↦ rw (get, stranger) refl
    | inl admin ↦
        let limited =
          allow_ip_rate_limit now (get_client_ip r.forwarded_for r.remote_addr) cfg.admin_oauth_rpm
            s.limits in
        elim (Bool-cases limited.0) [
          | inr refused ↦ rw (get, admin, refused) refl
          | inl allowed ↦
              let counted = Publishing.count_accounts s.db in
              let s' : ServerState = record s { limits = limited.1; db = counted.1 } in
              rw (get, admin, allowed)
                (ap (λ (d : Db). d.accounts) (start_counted-accounts cfg now state counted.0 s')
                  ∙ count_accounts-accounts s.db)
        ]
  ]
]

module _ (srv : Server) (r : Incoming) (s : ServerState) where
  callback-accounts :
      is_stale r.now (find_state r.state s.states) ≡ true
      → (handler srv r oauth_callback s).1.db.accounts ≡ s.db.accounts
  unfolding oauth_callback_handler
  callback-accounts h = ground arith

  list-accounts : (handler srv r admin_accounts s).1.db.accounts ≡ s.db.accounts
  unfolding admin_accounts_handler
  list-accounts = ground (arith, list_accounts-accounts s.db)

action-accounts :
    (cfg : OauthConfig) (r : Request) (parts : List Text) (s : ServerState)
    → validate_admin cfg r ≡ false
    → (admin_action cfg r parts s).1.db.accounts ≡ s.db.accounts
action-accounts cfg r [] s h = refl
action-accounts cfg r (a ∷ []) s h = refl
action-accounts cfg r (a ∷ b ∷ []) s h = ground arith
action-accounts cfg r (a ∷ b ∷ c ∷ ps) s h = refl

handler-accounts :
    (srv : Server) (r : Incoming) (route : Route) (s : ServerState)
    → entitled srv r route s ≡ false
    → (handler srv r route s).1.db.accounts ≡ s.db.accounts
unfolding admin_accounts_action_handler
handler-accounts srv r healthz s h = refl
handler-accounts srv r webhooks s h =
    ap (λ (d : Db). d.accounts) (unsigned_refused srv.endpoint r.delivery s.db h).0
handler-accounts srv r oauth_start s h = start-accounts srv.oauth r.now r.drawn r.request s
handler-accounts srv r oauth_callback s h = callback-accounts srv r s (ground arith)
handler-accounts srv r admin_accounts s h = list-accounts srv r s
handler-accounts srv r account_action s h =
    action-accounts srv.oauth r.request
      (split b'/' (trim_prefix r.request.path (bytes "/admin/accounts/"))) s h
handler-accounts srv r not_found s h = refl

-- A request leaves the reviewers' accounts as they are unless it is a delivery with the server's
-- signature, a callback with a state that the server drew at most ten minutes ago, or an action with
-- the admin token.
pub serve-accounts :
    (srv : Server) (r : Incoming) (s : ServerState)
    → entitled srv r (route_of r.request.path) s ≡ false
    → (serve srv r s).1.db.accounts ≡ s.db.accounts
unfolding serve
serve-accounts srv r s h = handler-accounts srv r (route_of r.request.path) s h
