-- ===== src/Http/Webhooks.antt =====
-- internal/httpserver/webhooks.go: githubWebhookHandler. A reply is its status.
use agent_frei_igi.Prelude.{
  ℕ, ◌≡◌, refl, Bool, true, false, not, Text, is_empty, none, some, Result, ok, err, if◌then◌else◌,
  arith, leb, Bool-cases, inl, inr, ap,
}
use agent_frei_igi.Store.Db.{Db}
use agent_frei_igi.Webhook.{WebhookPayload, verify_signature}
use agent_frei_igi.Queue.{Enqueuer, Decision, Handled}
use agent_frei_igi.Queue.Events.{handle_event}

-- What reading the body gives, which MaxBytesReader cuts at 5 MiB.
pub data Body : Type 0 where
  readable : Text → Body
  too_large unreadable : Body

pub record Endpoint : Type 0 where
  pub secret : Text
  pub hmac_sha256 : Text → Text → Text
  pub has_store : Bool
  pub unmarshal : Text → Result WebhookPayload
  pub enqueuer : Enqueuer

pub record Delivery : Type 0 where
  pub is_post : Bool
  pub event : Text
  pub signature : Text
  pub body : Body

abbrev pub handled : Handled → ℕ
handled (decision, none) = 200
handled (decision, some e) = 500

module _ (s : Endpoint) (event : Text) where
  abbrev pub handle_payload : Result WebhookPayload → Db → ℕ × Db
  handle_payload (err e) db = (400, db)
  handle_payload (ok payload) db =
      let (h, db') = handle_event s.enqueuer payload event db in (handled h, db')

  abbrev pub handle_body : Text → Body → Db → ℕ × Db
  handle_body signature too_large db = (413, db)
  handle_body signature unreadable db = (400, db)
  handle_body signature (readable body) db =
      if not (verify_signature s.hmac_sha256 body signature s.secret)
      then (401, db)
      else if not s.has_store
      then (503, db)
      else handle_payload (s.unmarshal body) db

-- githubWebhookHandler
unfoldable pub github_webhook_handler : Endpoint → Delivery → Db → ℕ × Db
github_webhook_handler s d db =
    if not d.is_post
    then (405, db)
    else if is_empty s.secret
    then (500, db)
    else handle_body s d.event d.signature d.body db

-- The body was read, and its signature is the server's.
abbrev pub is_signed : Endpoint → Text → Body → Bool
is_signed s signature too_large = false
is_signed s signature unreadable = false
is_signed s signature (readable body) = verify_signature s.hmac_sha256 body signature s.secret

handle_body-unsigned :
    (s : Endpoint) (event signature : Text) (body : Body) (db : Db)
    → is_signed s signature body ≡ false
    → ((handle_body s event signature body db).1 ≡ db)
      × (leb 400 (handle_body s event signature body db).0 ≡ true)
handle_body-unsigned s event signature too_large db h = (refl, refl)
handle_body-unsigned s event signature unreadable db h = (refl, refl)
handle_body-unsigned s event signature (readable body) db h = rw h (refl, refl)

-- A delivery without the server's signature is answered by an error and does not touch the database.
pub unsigned_refused :
    (s : Endpoint) (d : Delivery) (db : Db)
    → is_signed s d.signature d.body ≡ false
    → ((github_webhook_handler s d db).1 ≡ db) × (leb 400 (github_webhook_handler s d db).0 ≡ true)
unfolding github_webhook_handler
unsigned_refused s d db h = elim (Bool-cases d.is_post) [
  | inr other ↦ rw other (refl, refl)
  | inl post ↦ elim (Bool-cases (is_empty s.secret)) [
    | inl unset ↦ rw (post, unset) (refl, refl)
    | inr set ↦ rw (post, set) (handle_body-unsigned s d.event d.signature d.body db h)
  ]
]

-- What a delivery that was accepted has been.
pub record Accepted (s : Endpoint) (d : Delivery) (db final : Db) : Type 0 where
  pub body : Text
  pub was_read : d.body ≡ readable body
  pub signed : verify_signature s.hmac_sha256 body d.signature s.secret ≡ true
  pub payload : WebhookPayload
  pub parsed : s.unmarshal body ≡ ok payload
  pub decision : Decision
  pub took_effect : handle_event s.enqueuer payload d.event db ≡ ((decision, none), final)

handled-200 : (h : Handled) → handled h ≡ 200 → (decision : Decision) × (h ≡ (decision, none))
handled-200 (decision, none) e = (decision, refl)
handled-200 (decision, some f) e = absurd (omega arith)

module _ (s : Endpoint) (d : Delivery) (db : Db) {final : Db} where
  payload-Accepted :
      (body : Text) (r : Result WebhookPayload)
      → d.body ≡ readable body
      → verify_signature s.hmac_sha256 body d.signature s.secret ≡ true
      → s.unmarshal body ≡ r
      → handle_payload s d.event r db ≡ (200, final)
      → Accepted s d db final
  payload-Accepted body (err e) was_read signed parsed h = absurd (omega (arith, ap (λ p. p.0) h))
  payload-Accepted body (ok payload) was_read signed parsed h =
      let out = handle_event s.enqueuer payload d.event db in
      let (decision, e) = handled-200 out.0 (ap (λ p. p.0) h) in
      record {
        body = body;
        was_read = was_read;
        signed = signed;
        payload = payload;
        parsed = parsed;
        decision = decision;
        took_effect = cc (e, ap (λ p. p.1) h);
      }

  body-Accepted :
      (b : Body)
      → d.body ≡ b
      → handle_body s d.event d.signature b db ≡ (200, final)
      → Accepted s d db final
  body-Accepted too_large was_read h = absurd (omega (arith, ap (λ p. p.0) h))
  body-Accepted unreadable was_read h = absurd (omega (arith, ap (λ p. p.0) h))
  body-Accepted (readable body) was_read h =
      elim (Bool-cases (verify_signature s.hmac_sha256 body d.signature s.secret)) [
        | inr forged ↦ absurd (omega (arith, ap (λ p. p.0) (rw forged at h)))
        | inl signed ↦ elim (Bool-cases s.has_store) [
          | inr bare ↦ absurd (omega (arith, ap (λ p. p.0) (rw (signed, bare) at h)))
          | inl store ↦
              payload-Accepted body (s.unmarshal body) was_read signed refl
                (rw (signed, store) at h)
        ]
      ]

  -- A delivery is answered by 200 only if its body has the server's signature and parses, and the event
  -- was handled without an error; the database is then what the handler made of it.
  pub handler-Accepted : github_webhook_handler s d db ≡ (200, final) → Accepted s d db final
  unfolding github_webhook_handler
  handler-Accepted h = elim (Bool-cases d.is_post) [
    | inr other ↦ absurd (omega (arith, ap (λ p. p.0) (rw other at h)))
    | inl post ↦ elim (Bool-cases (is_empty s.secret)) [
      | inl unset ↦ absurd (omega (arith, ap (λ p. p.0) (rw (post, unset) at h)))
      | inr set ↦ body-Accepted d.body refl (rw (post, set) at h)
    ]
  ]
