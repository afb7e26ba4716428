-- ===== src/Http/Oauth/State.antt =====
-- The state parameter of internal/httpserver/oauth.go over a sequence of visits.
use agent_frei_igi.Prelude.{
  ℕ, ◌≡◌, refl, true, false, ◌||◌, Text, text_eq, is_empty, none, List, [], ◌∷◌, Result, ok, err,
  Bool-cases, inl, inr, All, arith,
}
use agent_frei_igi.GithubApp.{Reply}
use agent_frei_igi.Http.RateLimit.{allow_ip_rate_limit}
use agent_frei_igi.Store.Publishing
use agent_frei_igi.Http.Oauth.{
  OauthConfig, ServerState, Request, TokenAnswer, Step, next, stop, find_state, delete_state,
  add_state, validate_admin, get_client_ip, start_counted, oauth_start_handler, exchanged, login_of,
  encrypted, store_token, with_login, with_token, is_stale, oauth_callback_handler,
}

find-delete : (a : Text) (l : List (Text × ℕ)) → find_state a (delete_state a l) ≡ none
unfolding find_state delete_state
find-delete a [] = refl
find-delete a ((k, t) ∷ l) = elim (Bool-cases (text_eq k a)) [
  | inl same ↦ rw same (find-delete a l)
  | inr other ↦ rw (other, other) (find-delete a l)
]

find-delete_other :
    (a b : Text) (l : List (Text × ℕ))
    → find_state a l ≡ none
    → find_state a (delete_state b l) ≡ none
unfolding find_state delete_state
find-delete_other a b [] h = refl
find-delete_other a b ((k, t) ∷ l) h = elim (Bool-cases (text_eq k a)) [
  | inl same ↦ absurd (cc (rw same at h))
  | inr other ↦
      let rest = find-delete_other a b l (rw other at h) in
      elim (Bool-cases (text_eq k b)) [ inl gone ↦ rw gone rest | inr kept ↦ rw (kept, other) rest ]
]

find-add :
    (a b : Text) (now : ℕ) (l : List (Text × ℕ))
    → text_eq b a ≡ false
    → find_state a l ≡ none
    → find_state a (add_state b now l) ≡ none
unfolding find_state add_state
find-add a b now l other h = rw other (find-delete_other a b l h)

-- The exchange of a code leaves the states alone.
store_token-states :
    (login : Text) (r : Result Text) (s : ServerState) → (store_token login r s).1.states ≡ s.states
store_token-states login (err e) s = refl
store_token-states login (ok blob) s = refl

with_login-states :
    (cfg : OauthConfig) (token : Text) (x : Step Text) (s : ServerState)
    → (with_login cfg token x s).1.states ≡ s.states
with_login-states cfg token (stop status) s = refl
with_login-states cfg token (next login) s =
    store_token-states login (encrypted cfg token cfg.token_key) s

with_token-states :
    (cfg : OauthConfig) (x : Step Text) (user : Reply Text) (s : ServerState)
    → (with_token cfg x user s).1.states ≡ s.states
with_token-states cfg (stop status) user s = refl
with_token-states cfg (next token) user s = with_login-states cfg token (login_of user) s

-- The state is not one that a callback would accept.
abbrev pub Absent : Text → ServerState → Type 0
Absent a s = find_state a s.states ≡ none

-- A callback that was made, with the replies it got.
pub record Callback : Type 0 where
  pub now : ℕ
  pub request : Request
  pub code : Text
  pub state : Text
  pub token : Reply TokenAnswer
  pub user : Reply Text

abbrev pub call : OauthConfig → Callback → ServerState → ℕ × ServerState
call cfg c s = oauth_callback_handler cfg c.now c.request c.code c.state c.token c.user s

-- The two handlers that touch the states.
pub data Visit : Type 0 where
  start : ℕ → Text → Request → Visit
  return : Callback → Visit

unfoldable pub visit : OauthConfig → Visit → ServerState → ServerState
visit cfg (start now state r) s = (oauth_start_handler cfg now state r s).1
visit cfg (return c) s = (call cfg c s).1

unfoldable pub visits : OauthConfig → List Visit → ServerState → ServerState
visits cfg [] s = s
visits cfg (v ∷ vs) s = visits cfg vs (visit cfg v s)

-- A start that draws another state than `a`.
abbrev pub DrawsOther : Text → Visit → Type 0
DrawsOther a (start now state r) = text_eq state a ≡ false
DrawsOther a (return c) = Unit

module _ (cfg : OauthConfig) (a : Text) where
  start_counted-Absent :
      (now : ℕ) (state : Text) (n : Result ℕ) (s : ServerState)
      → text_eq state a ≡ false
      → Absent a s
      → Absent a (start_counted cfg now state n s).1
  start_counted-Absent now state (err e) s other h = h
  start_counted-Absent now state (ok n) s other h =
      ground (arith, find-add a state now s.states other h)

  start-Absent :
      (now : ℕ) (state : Text) (r : Request) (s : ServerState)
      → text_eq state a ≡ false
      → Absent a s
      → Absent a (oauth_start_handler cfg now state r s).1
  unfolding oauth_start_handler find_state validate_admin
  start-Absent now state r s other h =
      let (allowed, limits) =
        allow_ip_rate_limit now (get_client_ip r.forwarded_for r.remote_addr) cfg.admin_oauth_rpm
          s.limits in
      let n = Publishing.count_accounts s.db in
      let counted =
        start_counted-Absent now state n.0 (record s { limits = limits; db = n.1 }) other h in
      elim (Bool-cases r.is_get) [
        | inr other_method ↦ rw other_method h
        | inl get ↦ elim (Bool-cases (validate_admin cfg r)) [
          | inr denied ↦ rw (get, denied) h
          | inl admin ↦ elim (Bool-cases allowed) [
            | inr over ↦ rw (get, admin, over) h
            | inl under ↦ rw (get, admin, under) counted
          ]
        ]
      ]

  -- Whatever comes of it, a callback leaves the states as they are, or without its own.
  call-states :
      (P : List (Text × ℕ) → Type 0) (c : Callback) (s : ServerState)
      → P s.states
      → P (delete_state c.state s.states)
      → P (call cfg c s).1.states
  unfolding oauth_callback_handler
  call-states P c s kept removed =
      let without = record s { states = delete_state c.state s.states } in
      let same = with_token-states cfg (exchanged c.token) c.user without in
      elim (Bool-cases c.request.is_get) [
        | inr other_method ↦ rw other_method kept
        | inl get ↦ elim (Bool-cases (is_empty c.code || is_empty c.state)) [
          | inl missing ↦ rw (get, missing) kept
          | inr given ↦ elim (Bool-cases (is_stale c.now (find_state c.state s.states))) [
            | inl stale ↦ rw (get, given, stale) removed
            | inr fresh ↦ rw (get, given, fresh, same) removed
          ]
        ]
      ]

  visit-Absent :
      (v : Visit) (s : ServerState) → DrawsOther a v → Absent a s → Absent a (visit cfg v s)
  unfolding visit
  visit-Absent (start now state r) s other h = start-Absent now state r s other h
  visit-Absent (return c) s other h =
      call-states (λ l. find_state a l ≡ none) c s h (find-delete_other a c.state s.states h)

  visits-Absent :
      (vs : List Visit) (s : ServerState)
      → All (DrawsOther a) vs
      → Absent a s
      → Absent a (visits cfg vs s)
  unfolding visits
  visits-Absent [] s other h = h
  visits-Absent (v ∷ vs) s other h =
      visits-Absent vs (visit cfg v s) other.1 (visit-Absent v s other.0 h)

module _ (cfg : OauthConfig) where
  -- An absent state is refused before anything is exchanged or stored.
  call-refused :
      (c : Callback) (s : ServerState)
      → c.request.is_get ≡ true
      → Absent c.state s
      → ((call cfg c s).0 ≡ 400) × ((call cfg c s).1.db ≡ s.db)
  unfolding oauth_callback_handler
  call-refused c s get absent = elim (Bool-cases (is_empty c.code || is_empty c.state)) [
    | inl missing ↦ rw (get, missing) (refl, refl)
    | inr given ↦ rw (get, given, absent) (refl, refl)
  ]

  call-uses :
      (c : Callback) (s : ServerState)
      → c.request.is_get ≡ true
      → (is_empty c.code || is_empty c.state) ≡ false
      → Absent c.state (call cfg c s).1
  unfolding oauth_callback_handler
  call-uses c s get given =
      let gone = find-delete c.state s.states in
      let without = record s { states = delete_state c.state s.states } in
      let same = with_token-states cfg (exchanged c.token) c.user without in
      elim (Bool-cases (is_stale c.now (find_state c.state s.states))) [
        | inl stale ↦ rw (get, given, stale) gone
        | inr fresh ↦ rw (get, given, fresh, same) gone
      ]

  -- After a GET callback with a code and a state, whatever came of it, no later GET callback with the same
  -- state is accepted: it is answered by 400 and stores no token, after any visits to the server in between, as
  -- long as none of them draws that state again.
  pub state_used_once :
      (c c' : Callback) (vs : List Visit) (s : ServerState)
      → c.request.is_get ≡ true
      → (is_empty c.code || is_empty c.state) ≡ false
      → All (DrawsOther c.state) vs
      → c'.request.is_get ≡ true
      → c'.state ≡ c.state
      → let s' = visits cfg vs (call cfg c s).1 in
        ((call cfg c' s').0 ≡ 400) × ((call cfg c' s').1.db ≡ s'.db)
  state_used_once c c' vs s get given other get' same =
      call-refused c' (visits cfg vs (call cfg c s).1) get'
        (rw same (visits-Absent cfg c.state vs (call cfg c s).1 other (call-uses c s get given)))
