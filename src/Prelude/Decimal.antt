-- ===== src/Prelude/Decimal.antt =====
-- `%d` of a number that is not negative, as decimal digits.
use Prim.Native.Nat.{ℕ, zero, suc, ◌+◌, ◌/◌, ◌%◌}
use mathlib.Core.List.{[], ◌∷◌}
use agent_frei_igi.Prelude.Tests.{ltb, if◌then◌else◌}
use agent_frei_igi.Prelude.Strings.{Text}

-- The number has fewer digits than its value plus one, so that much fuel is enough.
unfoldable pub digits : ℕ → ℕ → Text → Text
digits zero n acc = acc
digits (suc fuel) n acc =
    let acc' = (48 + n % 10) ∷ acc in
    let rest = digits fuel (n / 10) acc' in if ltb n 10 then acc' else rest

unfoldable pub decimal : ℕ → Text
unfolding digits
decimal n = digits (suc n) n []
