-- ===== src/Config/Flags.antt =====
-- Load (internal/config/config.go): settings that hold whatever the other variables are.
use agent_frei_igi.Prelude.{◌≡◌, refl, ap, bytes, text_eq, Result, ok, err, ℤ}
use agent_frei_igi.Config.{Config, Host, ◌>>=◌, concurrency_of, duration_of, settings, load}

-- The values that were read in order, and the settings made of them.
pub record Loaded (h : Host) (cfg : Config) : Type 0 where
  pub concurrency : ℤ
  pub lease : ℤ
  pub heartbeat : ℤ
  pub poll : ℤ
  pub shutdown : ℤ
  pub llm_timeout : ℤ
  pub same : cfg ≡ settings h concurrency lease heartbeat poll shutdown llm_timeout
  pub reads_concurrency : concurrency_of (h.getenv (bytes "WORKER_CONCURRENCY")) ≡ ok concurrency
  pub reads_lease : duration_of h (bytes "WORKER_LEASE") (bytes "15m") ≡ ok lease

loaded :
    (h : Host) (a b c d e f : Result ℤ) {cfg : Config}
    → concurrency_of (h.getenv (bytes "WORKER_CONCURRENCY")) ≡ a
    → duration_of h (bytes "WORKER_LEASE") (bytes "15m") ≡ b
    → (a >>= λ q.
        b >>= λ w. c >>= λ x. d >>= λ y. e >>= λ z. f >>= λ u. ok (settings h q w x y z u))
      ≡ ok cfg
    → Loaded h cfg
loaded h (ok a) (ok b) (ok c) (ok d) (ok e) (ok f) p q h' = record {
  concurrency = a;
  lease = b;
  heartbeat = c;
  poll = d;
  shutdown = e;
  llm_timeout = f;
  same = cc;
  reads_concurrency = p;
  reads_lease = q;
}
loaded h (ok a) (ok b) (ok c) (ok d) (ok e) (err f) p q h' = cc
loaded h (ok a) (ok b) (ok c) (ok d) (err e) f p q h' = cc
loaded h (ok a) (ok b) (ok c) (err d) e f p q h' = cc
loaded h (ok a) (ok b) (err c) d e f p q h' = cc
loaded h (ok a) (err b) c d e f p q h' = cc
loaded h (err a) b c d e f p q h' = cc

pub load-Loaded : (h : Host) {cfg : Config} → load h ≡ ok cfg → Loaded h cfg
unfolding load
load-Loaded h e =
    loaded h (concurrency_of (h.getenv (bytes "WORKER_CONCURRENCY")))
      (duration_of h (bytes "WORKER_LEASE") (bytes "15m"))
      (duration_of h (bytes "WORKER_HEARTBEAT_INTERVAL") (bytes "30s"))
      (duration_of h (bytes "WORKER_POLL_INTERVAL") (bytes "2s"))
      (duration_of h (bytes "SHUTDOWN_TIMEOUT") (bytes "60s"))
      (duration_of h (bytes "LLM_TIMEOUT") (bytes "120s")) refl refl e

pub load-publish_comments :
    (h : Host) {cfg : Config}
    → load h ≡ ok cfg
    → cfg.ff_publish_comments ≡ text_eq (h.getenv (bytes "FF_PUBLISH_COMMENTS")) (bytes "true")
unfolding settings
load-publish_comments h e = ap (λ (c : Config). c.ff_publish_comments) (load-Loaded h e).same
