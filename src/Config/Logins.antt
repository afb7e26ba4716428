-- ===== src/Config/Logins.antt =====
-- REVIEWER_LOGINS (internal/config/config.go): what Load reads from it.
use agent_frei_igi.Prelude.{
  split-append, split-whole, ℕ, ◌≡◌, refl, ap, ◌∙◌, true, false, Text, bytes, is_empty, split, join,
  trim_space, cons_first, lacks, lacks-trim_space, trim_space_idem, List, [], ◌∷◌, All, ◌==◌, arith,
  Bool-cases, inl, inr,
}
use mathlib.Core.List.{append_assoc}
use agent_frei_igi.Config.{reviewer_logins, logins_of}

-- A login as the loop keeps it.
pub record IsLogin (login : Text) : Type 0 where
  pub present : is_empty login ≡ false
  pub trimmed : trim_space login ≡ login
  pub one : lacks b',' login ≡ true

cons_first-lacks :
    (sep c : ℕ) (ps : List Text)
    → (c == sep) ≡ false
    → All (λ p. lacks sep p ≡ true) ps
    → All (λ p. lacks sep p ≡ true) (cons_first c ps)
unfolding lacks
cons_first-lacks sep c [] other h = (ground arith, tt)
cons_first-lacks sep c (p ∷ ps) other h = (ground (arith, h.0), h.1)

split-lacks : (sep : ℕ) (s : Text) → All (λ p. lacks sep p ≡ true) (split sep s)
unfolding split lacks
split-lacks sep [] = (refl, tt)
split-lacks sep (c ∷ s) = elim (Bool-cases (c == sep)) [
  | inl here ↦ rw here (refl, split-lacks sep s)
  | inr other ↦ rw other (cons_first-lacks sep c (split sep s) other (split-lacks sep s))
]

logins_of-IsLogin :
    (parts : List Text) → All (λ p. lacks b',' p ≡ true) parts → All IsLogin (logins_of parts)
unfolding logins_of
logins_of-IsLogin [] h = tt
logins_of-IsLogin (part ∷ parts) h = elim (Bool-cases (is_empty (trim_space part))) [
  | inl blank ↦ rw blank (logins_of-IsLogin parts h.1)
  | inr present ↦
      let kept : IsLogin (trim_space part) = record {
        present = present;
        trimmed = trim_space_idem part;
        one = lacks-trim_space b',' part h.0;
      } in
      rw present (kept, logins_of-IsLogin parts h.1)
]

-- Every login of the list is one name: not empty, without spaces around it and without a comma.
pub reviewer_logins-IsLogin : (s : Text) → All IsLogin (reviewer_logins s)
unfolding reviewer_logins
reviewer_logins-IsLogin [] = tt
reviewer_logins-IsLogin (c ∷ s) = logins_of-IsLogin (split b',' (c ∷ s)) (split-lacks b',' (c ∷ s))

split-join :
    (p : Text) (ps : List Text)
    → All IsLogin (p ∷ ps)
    → split b',' (join (bytes ",") (p ∷ ps)) ≡ p ∷ ps
unfolding join
split-join p [] h = split-whole b',' p h.0.one
split-join p (q ∷ ps) h = rw (append_assoc p (b',' ∷ []) (join (bytes ",") (q ∷ ps))) (
    split-append b',' p (join (bytes ",") (q ∷ ps)) h.0.one
    ∙ ap (λ (r : List Text). p ∷ r) (split-join q ps h.1))

logins_of-kept : (ps : List Text) → All IsLogin ps → logins_of ps ≡ ps
unfolding logins_of
logins_of-kept [] h = refl
logins_of-kept (p ∷ ps) h = rw (h.0.trimmed, h.0.present, logins_of-kept ps h.1) refl

join-present :
    (p : Text) (ps : List Text) → is_empty p ≡ false → is_empty (join (bytes ",") (p ∷ ps)) ≡ false
unfolding join
join-present [] ps h = cc
join-present (c ∷ p) [] h = refl
join-present (c ∷ p) (q ∷ ps) h = refl

-- Logins that are not empty and have neither spaces around them nor commas, joined by commas, are read
-- back from REVIEWER_LOGINS in order.
pub reviewer_logins-join :
    (ps : List Text) → All IsLogin ps → reviewer_logins (join (bytes ",") ps) ≡ ps
unfolding reviewer_logins join
reviewer_logins-join [] h = refl
reviewer_logins-join (p ∷ ps) h =
    rw (join-present p ps h.0.present, split-join p ps h) (logins_of-kept (p ∷ ps) h)
