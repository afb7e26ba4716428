-- ===== src/Http/Oauth.antt =====
-- internal/httpserver/oauth.go: the OAuth and admin handlers. A reply is its status; the two requests to
-- GitHub are given by their replies. `hex(random)` and the time are arguments.
pub mod State
use agent_frei_igi.Prelude.{
  ℕ, ◌+◌, ◌*◌, Bool, true, false, ◌||◌, not, Text, bytes, text_eq, is_empty, trim_space,
  trim_prefix, split, Option, none, some, List, [], ◌∷◌, Result, ok, err, Error, if◌then◌else◌, ltb,
  leb, ℤ, to_nat, ◌==◌,
}
use agent_frei_igi.Domain.{GitHubAccount, disabled}
use agent_frei_igi.Store.Db.{Db}
use agent_frei_igi.Store.Publishing
use agent_frei_igi.GithubApp.{Reply, no_response, response, minute}
use agent_frei_igi.Http.RateLimit.{IpLimits, allow_ip_rate_limit}

-- The part before the last colon, if there is a colon.
unfoldable pub before_last_colon : Text → Option Text
before_last_colon [] = none
before_last_colon (c ∷ s) = go (before_last_colon s)
  where
    go : Option Text → Option Text
    go (some t) = some (c ∷ t)
    go none = if c == 58 then some [] else none

abbrev first_part : List Text → Text
first_part [] = []
first_part (p ∷ ps) = p

abbrev or_whole : Text → Option Text → Text
or_whole addr none = addr
or_whole addr (some t) = t

-- getClientIP
unfoldable pub get_client_ip : Text → Text → Text
unfolding before_last_colon
get_client_ip forwarded_for remote_addr =
    if is_empty forwarded_for
    then or_whole remote_addr (before_last_colon remote_addr)
    else trim_space (first_part (split 44 forwarded_for))

-- The settings; `encrypt` is crypto.Encrypt with a nonce that was drawn, under a key.
pub record OauthConfig : Type 0 where
  pub admin_token : Text
  pub admin_oauth_rpm : ℤ
  pub max_reviewer_accounts : ℤ
  pub token_key : Result Text
  pub encrypt : Text → Text → Result Text

-- Server: its maps, and the database
pub record ServerState : Type 0 where
  pub states : List (Text × ℕ)
  pub limits : IpLimits
  pub db : Db

-- The parts of a request that the handlers read.
pub record Request : Type 0 where
  pub is_get : Bool
  pub is_post : Bool
  pub path : Text
  pub query_token : Text
  pub header_token : Text
  pub forwarded_for : Text
  pub remote_addr : Text

-- validateAdmin
unfoldable pub validate_admin : OauthConfig → Request → Bool
validate_admin cfg r =
    if is_empty cfg.admin_token
    then false
    else text_eq (if is_empty r.query_token then r.header_token else r.query_token) cfg.admin_token

-- s.states[state], s.states[state] = now, delete(s.states, state)
unfoldable pub find_state : Text → List (Text × ℕ) → Option ℕ
find_state state [] = none
find_state state ((k, t) ∷ states) =
    let rest = find_state state states in if text_eq k state then some t else rest

unfoldable pub delete_state : Text → List (Text × ℕ) → List (Text × ℕ)
delete_state state [] = []
delete_state state ((k, t) ∷ states) =
    let rest = delete_state state states in if text_eq k state then rest else (k, t) ∷ rest

unfoldable pub add_state : Text → ℕ → List (Text × ℕ) → List (Text × ℕ)
unfolding delete_state
add_state state now states = (state, now) ∷ delete_state state states

-- Steps 3 to 5 of oauthStartHandler
abbrev pub start_counted : OauthConfig → ℕ → Text → Result ℕ → ServerState → ℕ × ServerState
start_counted cfg now state (err e) s = (500, s)
start_counted cfg now state (ok n) s =
    if leb (to_nat cfg.max_reviewer_accounts) n
    then (403, s)
    else (307, record s { states = add_state state now s.states })

-- oauthStartHandler
unfoldable pub oauth_start_handler :
    OauthConfig → ℕ → Text → Request → ServerState → ℕ × ServerState
oauth_start_handler cfg now state r s =
    if not r.is_get
    then (405, s)
    else if not (validate_admin cfg r)
    then (401, s)
    else let (allowed, limits) =
        allow_ip_rate_limit now (get_client_ip r.forwarded_for r.remote_addr) cfg.admin_oauth_rpm
          s.limits in
      let s' : ServerState = record s { limits = limits } in
      let (n, db) = Publishing.count_accounts s.db in
      if not allowed then (429, s') else start_counted cfg now state n (record s' { db = db })

-- The answer of the token endpoint
pub record TokenAnswer : Type 0 where
  pub access_token : Text
  pub error : Text

-- The access token that was exchanged for the code, or the status that ends the handler.
pub data Step (A : Type 0) : Type 0 where
  next : A → Step A
  stop : ℕ → Step A

unfoldable pub exchanged : Reply TokenAnswer → Step Text
exchanged (no_response e) = stop 500
exchanged (response status body) = if not (status == 200) then stop 500 else decoded body
  where
    decoded : Result TokenAnswer → Step Text
    decoded (err e) = stop 500
    decoded (ok answer) =
        if not (is_empty answer.error)
        then stop 400
        else if is_empty answer.access_token
        then stop 500
        else next answer.access_token

unfoldable pub login_of : Reply Text → Step Text
login_of (no_response e) = stop 500
login_of (response status body) = if not (status == 200) then stop 500 else decoded body
  where
    decoded : Result Text → Step Text
    decoded (err e) = stop 500
    decoded (ok login) = if is_empty login then stop 500 else next login

abbrev pub encrypted : OauthConfig → Text → Result Text → Result Text
encrypted cfg token (err e) = err e
encrypted cfg token (ok key) = cfg.encrypt key token

abbrev pub upserted : Result (Unit {0}) → ℕ
upserted (ok u) = 200
upserted (err e) = 500

-- Steps 4 to 6 of oauthCallbackHandler
abbrev pub store_token : Text → Result Text → ServerState → ℕ × ServerState
store_token login (err e) s = (500, s)
store_token login (ok blob) s =
    let (r, db) = Publishing.upsert_account_token login blob none s.db in
    (upserted r, record s { db = db })

abbrev pub with_login : OauthConfig → Text → Step Text → ServerState → ℕ × ServerState
with_login cfg token (stop status) s = (status, s)
with_login cfg token (next login) s = store_token login (encrypted cfg token cfg.token_key) s

abbrev pub with_token : OauthConfig → Step Text → Reply Text → ServerState → ℕ × ServerState
with_token cfg (stop status) user s = (status, s)
with_token cfg (next token) user s = with_login cfg token (login_of user) s

-- time.Since(created) > 10 minutes, or a state that is not there
abbrev pub is_stale : ℕ → Option ℕ → Bool
is_stale now none = true
is_stale now (some created) = ltb (created + 10 * minute) now

-- oauthCallbackHandler
unfoldable pub oauth_callback_handler :
    OauthConfig
    → ℕ
    → Request
    → Text
    → Text
    → Reply TokenAnswer
    → Reply Text
    → ServerState
    → ℕ × ServerState
oauth_callback_handler cfg now r code state token user s =
    if not r.is_get
    then (405, s)
    else if is_empty code || is_empty state
    then (400, s)
    else let s' : ServerState = record s { states = delete_state state s.states } in
      if is_stale now (find_state state s.states)
      then (400, s')
      else with_token cfg (exchanged token) user s'

abbrev listed : Result (List GitHubAccount) → ℕ × List GitHubAccount
listed (ok accounts) = (200, accounts)
listed (err e) = (500, [])

-- adminAccountsHandler; the body of the reply is the list.
unfoldable pub admin_accounts_handler :
    OauthConfig → Request → ServerState → (ℕ × List GitHubAccount) × ServerState
admin_accounts_handler cfg r s =
    if not r.is_get
    then ((405, []), s)
    else if not (validate_admin cfg r)
    then ((401, []), s)
    else let (l, db) = Publishing.list_accounts s.db in (listed l, record s { db = db })

abbrev disabled_reply : Result (Unit {0}) → ℕ
disabled_reply (ok u) = 200
disabled_reply (err e) = 400

-- The parts of the path: a login and an action.
abbrev pub admin_action : OauthConfig → Request → List Text → ServerState → ℕ × ServerState
admin_action cfg r (login ∷ action ∷ []) s =
    if not (text_eq action (bytes "disable"))
    then (404, s)
    else if not r.is_post
    then (405, s)
    else if not (validate_admin cfg r)
    then (401, s)
    else let (u, db) = Publishing.set_account_status login disabled s.db in
      (disabled_reply u, record s { db = db })
admin_action cfg r _ s = (404, s)

-- adminAccountsActionHandler
unfoldable pub admin_accounts_action_handler : OauthConfig → Request → ServerState → ℕ × ServerState
admin_accounts_action_handler cfg r s =
    admin_action cfg r (split b'/' (trim_prefix r.path (bytes "/admin/accounts/"))) s
