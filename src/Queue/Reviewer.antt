-- ===== src/Queue/Reviewer.antt =====
-- matchReviewer of internal/queue/enqueue.go beside the list of configured logins.
use agent_frei_igi.Prelude.{
  ◌≡◌, true, false, Text, none, some, List, [], ◌∷◌, ◌++◌, All, Bool-cases, inl, inr, arith, ap,
}
use agent_frei_igi.Queue.{is_asked, match_reviewer}

-- The login is asked for, and none before it is.
pub record FirstAsked (logins assignees : List Text) (body login : Text) : Type 0 where
  pub before : List Text
  pub after : List Text
  pub splits : logins ≡ before ++ login ∷ after
  pub asked : is_asked assignees body login ≡ true
  pub none_before : All (λ l. is_asked assignees body l ≡ false) before

-- The reviewer that is chosen is the first configured login that is assigned or mentioned.
pub match_reviewer-FirstAsked :
    (logins assignees : List Text) (body : Text) {login : Text}
    → match_reviewer logins assignees body ≡ some login
    → FirstAsked logins assignees body login
unfolding match_reviewer
match_reviewer-FirstAsked [] assignees body h = cc
match_reviewer-FirstAsked (l ∷ logins) assignees body {login} h =
    elim (Bool-cases (is_asked assignees body l)) [
      | inl asked ↦
          let same : l ≡ login = ground arith in
          record {
            before = [];
            after = logins;
            splits = ap (λ (x : Text). x ∷ logins) same;
            asked = rw (← same) asked;
            none_before = tt;
          }
      | inr other ↦
          let r = match_reviewer-FirstAsked logins assignees body (rw other at h) in
          record {
            before = l ∷ r.before;
            after = r.after;
            splits = ap (λ (ls : List Text). l ∷ ls) r.splits;
            asked = r.asked;
            none_before = (other, r.none_before);
          }
    ]

-- No reviewer is chosen only where none of the configured logins is assigned or mentioned.
pub match_reviewer-none :
    (logins assignees : List Text) (body : Text)
    → match_reviewer logins assignees body ≡ none
    → All (λ l. is_asked assignees body l ≡ false) logins
unfolding match_reviewer
match_reviewer-none [] assignees body h = tt
match_reviewer-none (l ∷ logins) assignees body h = elim (Bool-cases (is_asked assignees body l)) [
  | inl asked ↦ absurd (ground arith)
  | inr other ↦ (other, match_reviewer-none logins assignees body (rw other at h))
]
