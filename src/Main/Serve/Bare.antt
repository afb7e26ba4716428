-- ===== src/Main/Serve/Bare.antt =====
-- A server that `agent-frei serve` (cmd/agent-frei/main.go) starts, and the reply 503 of
-- internal/httpserver/webhooks.go.
use agent_frei_igi.Prelude.{
  ◌≡◌, ◌≢◌, true, Text, is_empty, Result, ok, err, arith, Bool-cases, inl, inr, some, none,
}
use agent_frei_igi.Store.Db.{Db}
use agent_frei_igi.Config.{Config}
use agent_frei_igi.Webhook.{WebhookPayload, verify_signature}
use agent_frei_igi.Queue.{Handled}
use agent_frei_igi.Queue.Events.{handle_event}
use agent_frei_igi.Http.Webhooks.{
  Endpoint, Delivery, Body, readable, too_large, unreadable, handled, handle_payload, handle_body,
  github_webhook_handler,
}
use agent_frei_igi.Http.Server.{Server}
use agent_frei_igi.Main.{Outside}
use agent_frei_igi.Main.Serve.{Pointer, new_server, with_pointer, optional_store, run_server}

handled-503 : (h : Handled) → handled h ≢ 503
handled-503 (decision, none) e = omega arith
handled-503 (decision, some f) e = omega arith

module _ (s : Endpoint) (event : Text) (db : Db) where
  payload-503 : (r : Result WebhookPayload) → (handle_payload s event r db).0 ≢ 503
  payload-503 (err e) h = omega arith
  payload-503 (ok payload) h = handled-503 (handle_event s.enqueuer payload event db).0 h

  body-503 :
      s.has_store ≡ true
      → (signature : Text) (b : Body) → (handle_body s event signature b db).0 ≢ 503
  body-503 store signature too_large h = omega arith
  body-503 store signature unreadable h = omega arith
  body-503 store signature (readable body) h =
      elim (Bool-cases (verify_signature s.hmac_sha256 body signature s.secret)) [
        | inr forged ↦ omega (arith, rw forged at h)
        | inl signed ↦ payload-503 (s.unmarshal body) (rw (signed, store) at h)
      ]

handler-503 :
    (s : Endpoint) (d : Delivery) (db : Db)
    → s.has_store ≡ true
    → (github_webhook_handler s d db).0 ≢ 503
unfolding github_webhook_handler
handler-503 s d db store h = elim (Bool-cases d.is_post) [
  | inr other ↦ omega (arith, rw other at h)
  | inl post ↦ elim (Bool-cases (is_empty s.secret)) [
    | inl unset ↦ omega (arith, rw (post, unset) at h)
    | inr set ↦ body-503 s d.event db store d.signature d.body (rw (post, set) at h)
  ]
]

has_store-true :
    (x : Outside) (nonce : Result Text) (cfg : Config) (p : Result Pointer) {srv : Server}
    → with_pointer x nonce cfg p ≡ ok srv
    → srv.endpoint.has_store ≡ true
unfolding new_server
has_store-true x nonce cfg (ok p) h = cc
has_store-true x nonce cfg (err e) h = cc

-- A server that was started never answers a delivery by 503, whether DATABASE_URL is set or not.
pub started-never-503 :
    (x : Outside) (nonce : Result Text) (loaded : Result Config) {srv : Server}
    → run_server x nonce loaded ≡ ok srv
    → (d : Delivery) (db : Db) → (github_webhook_handler srv.endpoint d db).0 ≢ 503
unfolding run_server
started-never-503 x nonce (err e) h d db = absurd (cc)
started-never-503 x nonce (ok cfg) {srv} h d db =
    handler-503 srv.endpoint d db (has_store-true x nonce cfg (optional_store x cfg) h)
