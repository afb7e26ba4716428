-- ===== src/Http/Limits.antt =====
-- allowIPRateLimit (internal/httpserver/oauth.go) over a sequence of requests of one address.
use agent_frei_igi.Prelude.{
  ℕ, ◌+◌, ◌≤◌, ◌<◌, ◌≡◌, refl, Bool, ◌&&◌, List, [], ◌∷◌, ◌++◌, length, length-append, ltb, leb, ℤ,
  to_nat, if◌then◌else◌, arith, All, All-map, Bool-cases, inl, inr, sym, ◌∙◌, leb→le,
}
use agent_frei_igi.GithubApp.{minute}
use agent_frei_igi.Http.RateLimit.{is_live, live_times, allow, admitted}

-- A time in the minute that ends with `t`.
abbrev pub in_window : ℕ → ℕ → Bool
in_window t a = leb a t && ltb t (a + minute)

abbrev pub count : (ℕ → Bool) → List ℕ → ℕ
count p [] = 0
count p (a ∷ as') = (if p a then 1 else 0) + count p as'

-- Requests come in the order of time, none before `from`.
abbrev pub IsOrdered : ℕ → List ℕ → Type 0
IsOrdered from [] = Unit
IsOrdered from (now ∷ later) = (from ≤ now) × IsOrdered now later

count-append : (p : ℕ → Bool) (as' bs : List ℕ) → count p (as' ++ bs) ≡ count p as' + count p bs
count-append p [] bs = omega arith
count-append p (a ∷ as') bs = omega (arith, count-append p as' bs)

count-length : (p : ℕ → Bool) (as' : List ℕ) → count p as' ≤ length as'
count-length p [] = omega arith
count-length p (a ∷ as') = ground (arith, count-length p as')

-- What is live later is live now.
count-live_times :
    (now t : ℕ) (ts : List ℕ)
    → now ≤ t
    → count (λ a. is_live t a) (live_times now ts) ≡ count (λ a. is_live t a) ts
unfolding live_times
count-live_times now t [] le = refl
count-live_times now t (a ∷ ts) le = ground (arith, count-live_times now t ts le)

-- Of times that are not after `t`, those in the window of `t` are the live ones.
count-window :
    (t : ℕ) (as' : List ℕ)
    → All (λ a. a ≤ t) as'
    → count (in_window t) as' ≡ count (λ a. is_live t a) as'
count-window t [] h = refl
count-window t (a ∷ as') h = ground (arith, count-window t as' h.1)

-- What holds of the times admitted and the times kept, after a request at `now`.
record Limited (rpm : ℕ) (now : ℕ) (kept past : List ℕ) : Type 0 where
  not_after : All (λ a. a ≤ now) past
  same_live : (t : ℕ) → now ≤ t → count (λ a. is_live t a) past ≡ count (λ a. is_live t a) kept
  bounded : (t : ℕ) → count (in_window t) past ≤ rpm

module _ (rpm : ℤ) (from now : ℕ) (kept past : List ℕ) (le : from ≤ now)
    (h : Limited (to_nat rpm) from kept past) where
  past-not_after : All (λ a. a ≤ now) past
  past-not_after = All-map past (λ a e. omega arith) h.not_after

  denied-Limited : Limited (to_nat rpm) now (live_times now kept) past
  denied-Limited = record {
    not_after = past-not_after;
    same_live = λ t ge. h.same_live t (omega arith) ∙ sym (count-live_times now t kept ge);
    bounded = h.bounded;
  }

  granted-same_live :
      (t : ℕ)
      → now ≤ t
      → count (λ a. is_live t a) (now ∷ past)
        ≡ count (λ a. is_live t a) (live_times now kept ++ now ∷ [])
  granted-same_live t ge =
      let e = denied-Limited.same_live t ge in
      let s = count-append (λ a. is_live t a) (live_times now kept) (now ∷ []) in
      ground (arith, e, s)

  granted-bounded :
      length (live_times now kept) < to_nat rpm
      → (t : ℕ) → count (in_window t) (now ∷ past) ≤ to_nat rpm
  granted-bounded room t = elim (Bool-cases (leb now t)) [
    | inl ge ↦
        let le' = leb→le now t ge in
        let after : All (λ a. a ≤ t) (now ∷ past) =
          (le', All-map past (λ a e. omega arith) past-not_after) in
        omega (
          arith,
          count-window t (now ∷ past) after,
          granted-same_live t le',
          count-length (λ a. is_live t a) (live_times now kept ++ now ∷ []),
          length-append (live_times now kept) (now ∷ []),
        )
    | inr early ↦ let b = h.bounded t in rw early (omega (arith, b))
  ]

  granted-Limited :
      length (live_times now kept) < to_nat rpm
      → Limited (to_nat rpm) now (live_times now kept ++ now ∷ []) (now ∷ past)
  granted-Limited room = record {
    not_after = (omega arith, past-not_after);
    same_live = granted-same_live;
    bounded = granted-bounded room;
  }

  step-Limited :
      let (allowed, kept') = allow now rpm kept in
      Limited (to_nat rpm) now kept' (if allowed then now ∷ past else past)
  unfolding allow
  step-Limited = elim (Bool-cases (leb (to_nat rpm) (length (live_times now kept)))) [
    | inl full ↦ rw full denied-Limited
    | inr room ↦ rw room (granted-Limited (ground arith))
  ]

admitted-bounded :
    (rpm : ℤ) (from : ℕ) (kept past arrivals : List ℕ)
    → IsOrdered from arrivals
    → Limited (to_nat rpm) from kept past
    → (t : ℕ) → count (in_window t) (admitted rpm kept past arrivals) ≤ to_nat rpm
unfolding admitted
admitted-bounded rpm from kept past [] o h t = h.bounded t
admitted-bounded rpm from kept past (now ∷ later) o h t =
    let (allowed, kept') = allow now rpm kept in
    admitted-bounded rpm now (allow now rpm kept).1
      (if (allow now rpm kept).0 then now ∷ past else past) later o.1
      (step-Limited rpm from now kept past o.0 h) t

-- However an address sends requests, in the order of time, no minute has more admitted ones than the limit
-- per minute; a limit that is not positive admits none.
pub window_bounded :
    (rpm : ℤ) (arrivals : List ℕ)
    → IsOrdered 0 arrivals
    → (t : ℕ) → count (in_window t) (admitted rpm [] [] arrivals) ≤ to_nat rpm
window_bounded rpm arrivals o =
    admitted-bounded rpm 0 [] [] arrivals o
      (record { not_after = tt; same_live = λ t le. refl; bounded = λ t. omega arith })
