-- ===== src/Prelude/Strings/Trim.antt =====
-- What strings.TrimSpace leaves: a part of the text, with no space at either end.
use Prim.Native.Nat.{ℕ}
use mathlib.Core.Path.{◌≡◌, refl, ap, ◌∙◌, sym}
use mathlib.Core.Bool.{Bool, true, ◌&&◌, not}
use mathlib.Core.Logic.{inl, inr}
use mathlib.Core.List.{[], ◌∷◌, ◌++◌, reverse, reverse-reverse, reverse-append}
use native.Mathlib.Omega.{arith}
use agent_frei_igi.Prelude.Tests.{◌==◌, Bool-cases}
use agent_frei_igi.Prelude.Strings.{Text, is_space, trim_left, trim_space}

unfoldable pub starts_clean : Text → Bool
unfolding is_space
starts_clean [] = true
starts_clean (c ∷ s) = not (is_space c)

-- No byte is `sep`.
unfoldable pub lacks : ℕ → Text → Bool
lacks sep [] = true
lacks sep (c ∷ s) = not (c == sep) && lacks sep s

starts_clean-trim_left : (s : Text) → starts_clean (trim_left s) ≡ true
unfolding starts_clean trim_left
starts_clean-trim_left [] = refl
starts_clean-trim_left (c ∷ s) = ground (arith, starts_clean-trim_left s)

trim_left-clean : (s : Text) → starts_clean s ≡ true → trim_left s ≡ s
unfolding starts_clean trim_left
trim_left-clean [] h = refl
trim_left-clean (c ∷ s) h = ground arith

starts_clean-front : (s t : Text) → starts_clean (s ++ t) ≡ true → starts_clean s ≡ true
unfolding starts_clean
starts_clean-front [] t h = refl
starts_clean-front (c ∷ s) t h = h

-- What trimming leaves at the end of the text, and what it takes off before that.
trim_left-rest : (s : Text) → (pre : Text) × (pre ++ trim_left s ≡ s)
unfolding trim_left
trim_left-rest [] = ([], refl)
trim_left-rest (c ∷ s) = elim (Bool-cases (is_space c)) [
  | inl space ↦ let (pre, e) = trim_left-rest s in (c ∷ pre, rw space (ap (λ (r : Text). c ∷ r) e))
  | inr other ↦ ([], rw other refl)
]

-- The trimmed text stands at the front of the text without its leading spaces.
trim_space-front : (s : Text) → (rest : Text) × (trim_space s ++ rest ≡ trim_left s)
unfolding trim_space
trim_space-front s =
    let t = trim_left s in
    let (pre, e) = trim_left-rest (reverse t) in
    (
      reverse pre,
      sym (reverse-append pre (trim_left (reverse t)))
          ∙ ap (λ (r : Text). reverse r) e
          ∙ reverse-reverse t,
    )

lacks-trim_left : (sep : ℕ) (s : Text) → lacks sep s ≡ true → lacks sep (trim_left s) ≡ true
unfolding lacks trim_left
lacks-trim_left sep [] h = refl
lacks-trim_left sep (c ∷ s) h = ground (arith, lacks-trim_left sep s)

lacks-front : (sep : ℕ) (s t : Text) → lacks sep (s ++ t) ≡ true → lacks sep s ≡ true
unfolding lacks
lacks-front sep [] t h = refl
lacks-front sep (c ∷ s) t h = ground (arith, lacks-front sep s t)

pub lacks-trim_space : (sep : ℕ) (s : Text) → lacks sep s ≡ true → lacks sep (trim_space s) ≡ true
lacks-trim_space sep s h =
    let (rest, e) = trim_space-front s in
    lacks-front sep (trim_space s) rest (rw e (lacks-trim_left sep s h))

starts_clean-trim_space : (s : Text) → starts_clean (trim_space s) ≡ true
starts_clean-trim_space s =
    let (rest, e) = trim_space-front s in
    starts_clean-front (trim_space s) rest (rw e (starts_clean-trim_left s))

ends_clean-trim_space : (s : Text) → starts_clean (reverse (trim_space s)) ≡ true
unfolding trim_space
ends_clean-trim_space s =
    rw (reverse-reverse (trim_left (reverse (trim_left s))))
      (starts_clean-trim_left (reverse (trim_left s)))

trim_space-clean :
    (s : Text) → starts_clean s ≡ true → starts_clean (reverse s) ≡ true → trim_space s ≡ s
unfolding trim_space
trim_space-clean s front back =
    rw (trim_left-clean s front, trim_left-clean (reverse s) back) (reverse-reverse s)

-- Trimming twice is trimming once.
pub trim_space_idem : (s : Text) → trim_space (trim_space s) ≡ trim_space s
trim_space_idem s =
    trim_space-clean (trim_space s) (starts_clean-trim_space s) (ends_clean-trim_space s)
