-- ===== src/Config/Start.antt =====
-- Load (internal/config/config.go): the variables that end the process.
use agent_frei_igi.Prelude.{
  ◌≡◌, refl, ◌↔◌, Bool, true, false, Text, bytes, is_empty, is_ok, Result, ok, ℤ, atoi, arith, ◌||◌,
  ◌&&◌, ◌∙◌, sym, and-true,
}
use agent_frei_igi.Config.{Host, ◌>>=◌, concurrency_of, duration_of, settings, load}
use agent_frei_igi.Config.Duration.{parse_duration}
use agent_frei_igi.Config.Duration.Defaults.{
  fifteen_minutes, thirty_seconds, two_seconds, one_minute, two_minutes,
}

-- A variable that is not set, or that a reader takes.
abbrev pub reads : (Text → Result ℤ) → Text → Bool
reads read value = is_empty value || is_ok (read value)

-- What the environment must have for the process to go on.
pub record Startable (h : Host) : Type 0 where
  pub concurrency : reads atoi (h.getenv (bytes "WORKER_CONCURRENCY")) ≡ true
  pub lease : reads parse_duration (h.getenv (bytes "WORKER_LEASE")) ≡ true
  pub heartbeat : reads parse_duration (h.getenv (bytes "WORKER_HEARTBEAT_INTERVAL")) ≡ true
  pub poll : reads parse_duration (h.getenv (bytes "WORKER_POLL_INTERVAL")) ≡ true
  pub shutdown : reads parse_duration (h.getenv (bytes "SHUTDOWN_TIMEOUT")) ≡ true
  pub llm_timeout : reads parse_duration (h.getenv (bytes "LLM_TIMEOUT")) ≡ true

concurrency-ok : (value : Text) → is_ok (concurrency_of value) ≡ reads atoi value
unfolding concurrency_of
concurrency-ok value = ground arith

duration-ok :
    (h : Host) (key fallback : Text)
    → is_empty fallback ≡ false
    → is_ok (parse_duration fallback) ≡ true
    → is_ok (duration_of h key fallback) ≡ reads parse_duration (h.getenv key)
unfolding duration_of
duration-ok h key fallback present good = ground arith

module _ (h : Host) where
  lease-ok :
      is_ok (duration_of h (bytes "WORKER_LEASE") (bytes "15m"))
      ≡ reads parse_duration (h.getenv (bytes "WORKER_LEASE"))
  lease-ok = duration-ok h (bytes "WORKER_LEASE") (bytes "15m") refl fifteen_minutes

  heartbeat-ok :
      is_ok (duration_of h (bytes "WORKER_HEARTBEAT_INTERVAL") (bytes "30s"))
      ≡ reads parse_duration (h.getenv (bytes "WORKER_HEARTBEAT_INTERVAL"))
  heartbeat-ok = duration-ok h (bytes "WORKER_HEARTBEAT_INTERVAL") (bytes "30s") refl thirty_seconds

  poll-ok :
      is_ok (duration_of h (bytes "WORKER_POLL_INTERVAL") (bytes "2s"))
      ≡ reads parse_duration (h.getenv (bytes "WORKER_POLL_INTERVAL"))
  poll-ok = duration-ok h (bytes "WORKER_POLL_INTERVAL") (bytes "2s") refl two_seconds

  shutdown-ok :
      is_ok (duration_of h (bytes "SHUTDOWN_TIMEOUT") (bytes "60s"))
      ≡ reads parse_duration (h.getenv (bytes "SHUTDOWN_TIMEOUT"))
  shutdown-ok = duration-ok h (bytes "SHUTDOWN_TIMEOUT") (bytes "60s") refl one_minute

  llm_timeout-ok :
      is_ok (duration_of h (bytes "LLM_TIMEOUT") (bytes "120s"))
      ≡ reads parse_duration (h.getenv (bytes "LLM_TIMEOUT"))
  llm_timeout-ok = duration-ok h (bytes "LLM_TIMEOUT") (bytes "120s") refl two_minutes

-- The sequence of Load ends well exactly if each of its readings does.
all_ok :
    {A : Type 0} (a b c d e f : Result ℤ) (k : ℤ → ℤ → ℤ → ℤ → ℤ → ℤ → A)
    → is_ok (a >>= λ v. b >>= λ w. c >>= λ x. d >>= λ y. e >>= λ z. f >>= λ u. ok (k v w x y z u))
      ≡ (is_ok a && is_ok b && is_ok c && is_ok d && is_ok e && is_ok f)
all_ok a b c d e f k = ground arith

module _ (h : Host) where
  abbrev all_read : Bool
  all_read =
      reads atoi (h.getenv (bytes "WORKER_CONCURRENCY"))
      && reads parse_duration (h.getenv (bytes "WORKER_LEASE"))
      && reads parse_duration (h.getenv (bytes "WORKER_HEARTBEAT_INTERVAL"))
      && reads parse_duration (h.getenv (bytes "WORKER_POLL_INTERVAL"))
      && reads parse_duration (h.getenv (bytes "SHUTDOWN_TIMEOUT"))
      && reads parse_duration (h.getenv (bytes "LLM_TIMEOUT"))

  load-ok : is_ok (load h) ≡ all_read
  unfolding load
  load-ok =
      rw
        (
          ← concurrency-ok (h.getenv (bytes "WORKER_CONCURRENCY")),
          ← lease-ok h,
          ← heartbeat-ok h,
          ← poll-ok h,
          ← shutdown-ok h,
          ← llm_timeout-ok h,
        )
        (all_ok (concurrency_of (h.getenv (bytes "WORKER_CONCURRENCY")))
          (duration_of h (bytes "WORKER_LEASE") (bytes "15m"))
          (duration_of h (bytes "WORKER_HEARTBEAT_INTERVAL") (bytes "30s"))
          (duration_of h (bytes "WORKER_POLL_INTERVAL") (bytes "2s"))
          (duration_of h (bytes "SHUTDOWN_TIMEOUT") (bytes "60s"))
          (duration_of h (bytes "LLM_TIMEOUT") (bytes "120s")) (settings h))

  -- The process goes on exactly if the six variables that must parse are each unset or well formed.
  pub load-Startable : (is_ok (load h) ≡ true) ↔ Startable h
  load-Startable = (
    λ e.
        let all : all_read ≡ true = sym load-ok ∙ e in
        let (upto_shutdown, llm_timeout) = and-true _ _ all in
        let (upto_poll, shutdown) = and-true _ _ upto_shutdown in
        let (upto_heartbeat, poll) = and-true _ _ upto_poll in
        let (upto_lease, heartbeat) = and-true _ _ upto_heartbeat in
        let (concurrency, lease) = and-true _ _ upto_lease in
        record {
          concurrency = concurrency;
          lease = lease;
          heartbeat = heartbeat;
          poll = poll;
          shutdown = shutdown;
          llm_timeout = llm_timeout;
        },
    λ s. rw (load-ok, s.concurrency, s.lease, s.heartbeat, s.poll, s.shutdown, s.llm_timeout) refl,
  )
