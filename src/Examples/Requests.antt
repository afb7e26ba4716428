-- ===== src/Examples/Requests.antt =====
-- The server's handlers at concrete inputs.
use agent_frei_igi.Prelude.{
  ◌≡◌, ◌≤◌, refl, inl, true, false, bytes, Text, [], ◌∷◌, none, some, ok, err, message, pos, All,
  leb, to_nat, arith, ap, text_eq, to_lower, has_prefix,
}
use agent_frei_igi.Webhook.{WebhookPayload, PrPayload, verify_signature, hex_decode, hex_digit}
use agent_frei_igi.Queue.Events.{handle_event}
use agent_frei_igi.Queue.{
  Enqueuer, new_job, handle_pr, enqueue, match_reviewer, is_asked, is_closing, enqueued,
  cancelled_open,
}
use agent_frei_igi.Queue.Served.{Served, enqueued-Served}
use agent_frei_igi.Store.Jobs.Drain.{claim_each}
use agent_frei_igi.Queue.Gate.{Passed, handle_pr-Passed, handle_pr-closed}
use agent_frei_igi.Store.Db
use agent_frei_igi.Store.Db.{Db}
use agent_frei_igi.Store.Jobs
use agent_frei_igi.Store.Installations
use agent_frei_igi.Store.Accounts
use agent_frei_igi.Store.Jobs.Columns.{IsOpenFor}
use agent_frei_igi.Store.Publishing
use agent_frei_igi.GithubApp.{no_response}
use agent_frei_igi.Http.RateLimit.{admitted}
use agent_frei_igi.Http.Limits.{count, in_window, window_bounded}
use agent_frei_igi.Http.Webhooks.{
  Endpoint, Delivery, readable, github_webhook_handler, unsigned_refused, Accepted,
  handler-Accepted,
}
use agent_frei_igi.Http.Oauth.{OauthConfig, ServerState, Request, validate_admin}
use agent_frei_igi.Http.Server.{Server, Incoming, route_of, serve}
use agent_frei_igi.Http.Server.Guarded.{serve-accounts}
use agent_frei_igi.Http.Oauth.State.{Callback, call, visits, return, state_used_once}
use agent_frei_igi.Examples.Fixtures.{installation, held, db_with, never_locked, worker}

abbrev pull : PrPayload
pull = record {
  number = 7;
  state = bytes "open";
  draft = false;
  head_sha = bytes "new";
  base_sha = bytes "def";
  assignees = bytes "Ann" ∷ [];
}

abbrev opened : WebhookPayload
opened = record {
  action = bytes "opened";
  pull_request = some pull;
  issue = none;
  comment = none;
  repository = some (bytes "o/r");
  installation = none;
}

abbrev closed : WebhookPayload
closed = record opened { action = bytes "closed" }

abbrev enqueuer : Enqueuer
enqueuer = record { logins = bytes "bob" ∷ bytes "ann" ∷ []; marshal = λ p. bytes "{}" }

abbrev start_db : Db
start_db = db_with (held ∷ [])

decides : (handle_pr enqueuer opened installation (bytes "o/r") pull start_db).0 ≡ (enqueued, none)
unfolding handle_pr is_closing enqueue match_reviewer is_asked text_eq to_lower
    Db.cancel_jobs_for_pr Db.query Publishing.get_account_by_login Db.create_job Jobs.create_job
    Jobs.cancel_jobs_for_pr Jobs.conflicts Jobs.same_key new_job Installations.get_installation
    Accounts.get_account_by_login
decides = refl

handle_pr-Passed_example :
    Passed enqueuer opened installation
      (bytes "o/r")
      pull
      (handle_pr enqueuer opened installation (bytes "o/r") pull start_db).1
handle_pr-Passed_example =
    handle_pr-Passed enqueuer opened installation (bytes "o/r") pull start_db (
      ap (λ h. (h, (handle_pr enqueuer opened installation (bytes "o/r") pull start_db).1)) decides)

abbrev now_enqueued : Db
now_enqueued = (handle_pr enqueuer opened installation (bytes "o/r") pull start_db).1

enqueued-Served_example :
    Served enqueuer opened installation
      (bytes "o/r")
      pull
      50
      100
      (worker ∷ [])
      now_enqueued
      (claim_each never_locked 50 100 (worker ∷ []) now_enqueued.jobs)
unfolding handle_pr is_closing enqueue match_reviewer is_asked text_eq to_lower
    Db.cancel_jobs_for_pr Db.query Publishing.get_account_by_login Db.create_job Jobs.create_job
    Jobs.cancel_jobs_for_pr Jobs.conflicts Jobs.same_key new_job Installations.get_installation
    Accounts.get_account_by_login Jobs.claimable Jobs.counters_fit
enqueued-Served_example =
    enqueued-Served enqueuer opened installation (bytes "o/r") pull start_db never_locked 50 100
      (worker ∷ []) (refl, tt) (ap (λ h. (h, now_enqueued)) decides) (λ j e. refl)
      ((λ waits. refl), ((λ waits. refl), tt)) (omega arith)

cancels :
    (handle_pr enqueuer closed installation (bytes "o/r") pull start_db).0 ≡ (cancelled_open, none)
unfolding handle_pr is_closing text_eq Db.cancel_open_jobs_for_pr Db.query
cancels = refl

handle_pr-closed_example :
    All
      (λ j. IsOpenFor 1 (bytes "o/r") 7 j → ⊥)
      (handle_pr enqueuer closed installation (bytes "o/r") pull start_db).1.jobs
handle_pr-closed_example =
    handle_pr-closed enqueuer closed installation (bytes "o/r") pull start_db (inl refl) (
      ap (λ h. (h, (handle_pr enqueuer closed installation (bytes "o/r") pull start_db).1)) cancels)

window_bounded_example :
    count (in_window 90) (admitted (pos 1) [] [] (10 ∷ 20 ∷ [])) ≤ to_nat (pos 1)
window_bounded_example = window_bounded (pos 1) (10 ∷ 20 ∷ []) (omega arith, (omega arith, tt)) 90

abbrev endpoint : Endpoint
endpoint = record {
  secret = bytes "s";
  hmac_sha256 = λ key body. 171 ∷ [];
  has_store = true;
  unmarshal = λ body. ok opened;
  enqueuer = enqueuer;
}

abbrev pub ping : Text → Delivery
ping signature = record {
  is_post = true;
  event = bytes "ping";
  signature = signature;
  body = readable (bytes "{}");
}

unsigned_refused_example :
    ((github_webhook_handler endpoint (ping (bytes "sha256=ac")) start_db).1 ≡ start_db)
    × (leb 400 (github_webhook_handler endpoint (ping (bytes "sha256=ac")) start_db).0 ≡ true)
unfolding verify_signature has_prefix hex_decode hex_digit text_eq
unsigned_refused_example = unsigned_refused endpoint (ping (bytes "sha256=ac")) start_db refl

handler-Accepted_example : Accepted endpoint (ping (bytes "sha256=aB")) start_db start_db
unfolding github_webhook_handler verify_signature has_prefix hex_decode hex_digit text_eq
    handle_event
handler-Accepted_example =
    handler-Accepted endpoint (ping (bytes "sha256=aB")) start_db {final = start_db} refl

abbrev oauth : OauthConfig
oauth = record {
  admin_token = bytes "a";
  admin_oauth_rpm = pos 5;
  max_reviewer_accounts = pos 3;
  token_key = err (message (bytes "no key"));
  encrypt = λ key token. ok token;
}

abbrev got : Request
got = record {
  is_get = true;
  is_post = false;
  path = [];
  query_token = [];
  header_token = [];
  forwarded_for = [];
  remote_addr = [];
}

abbrev first_call : Callback
first_call = record {
  now = 5;
  request = got;
  code = bytes "c";
  state = bytes "x";
  token = no_response (message []);
  user = no_response (message []);
}

abbrev server : ServerState
server = record { states = (bytes "x", 1) ∷ []; limits = []; db = start_db }

state_used_once_example :
    let s' = visits oauth (return first_call ∷ []) (call oauth first_call server).1 in
    ((call oauth first_call s').0 ≡ 400) × ((call oauth first_call s').1.db ≡ s'.db)
state_used_once_example =
    state_used_once oauth first_call first_call (return first_call ∷ []) server refl refl (tt, tt)
      refl refl

abbrev intrusion : Incoming
intrusion = record {
  request = record got {
    is_get = false;
    is_post = true;
    path = bytes "/admin/accounts/ann/disable";
  };
  delivery = ping [];
  now = 5;
  drawn = bytes "y";
  code = [];
  state = [];
  token_reply = no_response (message []);
  user_reply = no_response (message []);
}

abbrev routed : Server
routed = record { endpoint = endpoint; oauth = oauth }

serve-accounts_example : (serve routed intrusion server).1.db.accounts ≡ server.db.accounts
unfolding route_of text_eq has_prefix validate_admin
serve-accounts_example = serve-accounts routed intrusion server refl
