-- ===== src/Prelude/Strings/Split.antt =====
-- strings.Split at a byte, on texts that were put together with it.
use Prim.Native.Nat.{ℕ}
use mathlib.Core.Path.{◌≡◌, refl}
use mathlib.Core.Bool.{true}
use mathlib.Core.List.{[], ◌∷◌, ◌++◌}
use native.Mathlib.Omega.{arith}
use agent_frei_igi.Prelude.Strings.{Text, split}
use agent_frei_igi.Prelude.Strings.Trim.{lacks}

pub split-append :
    (sep : ℕ) (p t : Text) → lacks sep p ≡ true → split sep (p ++ (sep ∷ t)) ≡ p ∷ split sep t
unfolding split lacks
split-append sep [] t h = ground arith
split-append sep (c ∷ p) t h = ground (arith, split-append sep p t)

pub split-whole : (sep : ℕ) (p : Text) → lacks sep p ≡ true → split sep p ≡ p ∷ []
unfolding split lacks
split-whole sep [] h = refl
split-whole sep (c ∷ p) h = ground (arith, split-whole sep p)
