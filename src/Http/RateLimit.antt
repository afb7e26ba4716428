-- ===== src/Http/RateLimit.antt =====
-- internal/httpserver/oauth.go: allowIPRateLimit. A time is microseconds, and the mutex makes a call
-- one step.
use agent_frei_igi.Prelude.{
  ℕ, ◌+◌, Bool, true, false, Text, text_eq, List, [], ◌∷◌, ◌++◌, length, ltb, leb, ℤ, to_nat,
  if◌then◌else◌,
}
use agent_frei_igi.GithubApp.{minute}

-- s.limits
abbrev pub IpLimits : Type 0
IpLimits = List (Text × List ℕ)

-- s.limits[ip]
unfoldable pub times_of : Text → IpLimits → List ℕ
times_of ip [] = []
times_of ip ((k, ts) ∷ limits) = let rest = times_of ip limits in if text_eq k ip then ts else rest

-- s.limits[ip] = ts
unfoldable pub set_times : Text → List ℕ → IpLimits → IpLimits
set_times ip ts [] = (ip, ts) ∷ []
set_times ip ts ((k, us) ∷ limits) =
    let rest = set_times ip ts limits in if text_eq k ip then (k, ts) ∷ limits else (k, us) ∷ rest

-- t.After(now - 1 minute)
abbrev pub is_live : ℕ → ℕ → Bool
is_live now t = ltb now (t + minute)

unfoldable pub live_times : ℕ → List ℕ → List ℕ
live_times now [] = []
live_times now (t ∷ ts) = let rest = live_times now ts in if is_live now t then t ∷ rest else rest

-- The decision for the times of one address, and the times that are kept.
unfoldable pub allow : ℕ → ℤ → List ℕ → Bool × List ℕ
unfolding live_times
allow now rpm times =
    let live = live_times now times in
    if leb (to_nat rpm) (length live) then (false, live) else (true, live ++ now ∷ [])

-- allowIPRateLimit
unfoldable pub allow_ip_rate_limit : ℕ → Text → ℤ → IpLimits → Bool × IpLimits
unfolding times_of set_times allow
allow_ip_rate_limit now ip rpm limits =
    let (allowed, ts) = allow now rpm (times_of ip limits) in (allowed, set_times ip ts limits)

-- The times at which an address was let through, the last first, when it asks at the given times.
unfoldable pub admitted : ℤ → List ℕ → List ℕ → List ℕ → List ℕ
unfolding allow
admitted rpm kept past [] = past
admitted rpm kept past (now ∷ later) =
    let (allowed, kept') = allow now rpm kept in
    admitted rpm kept' (if allowed then now ∷ past else past) later
