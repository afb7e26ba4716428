-- ===== src/Prelude/Strings.antt =====
-- Go strings as their bytes, with the functions of package `strings` that the program calls.
-- `to_lower` and `trim_space` are those functions on ASCII; a byte from 128 up is left alone.
pub mod Trim
pub mod Split
use Prim.Native.Nat.{ℕ, ◌+◌, ◌-◌}
use Prim.Native.Char.{code}
use Prim.Native.String.{String}
use mathlib.Core.Path.{◌≡◌, refl}
use mathlib.Core.Logic.{◌↔◌}
use mathlib.Core.Bool.{Bool, true, false, ◌&&◌, ◌||◌}
use mathlib.Core.List.{List, [], ◌∷◌, ◌++◌, map, reverse}
use native.Mathlib.Omega.{arith}
use agent_frei_igi.Prelude.Tests.{leb, ◌==◌, if◌then◌else◌}
use agent_frei_igi.Prelude.Lists.{length, take, drop}

abbrev pub Text : Type 0
Text = List ℕ

-- The bytes of an ASCII literal.
abbrev pub bytes : String → Text
bytes String.[] = []
bytes (String.◌∷◌ c s) = code c ∷ bytes s

-- s == t
unfoldable pub text_eq : Text → Text → Bool
text_eq [] [] = true
text_eq [] (b ∷ t) = false
text_eq (a ∷ s) [] = false
text_eq (a ∷ s) (b ∷ t) = a == b && text_eq s t

pub text_eq_refl : (s : Text) → text_eq s s ≡ true
unfolding text_eq
text_eq_refl [] = refl
text_eq_refl (a ∷ s) = ground (arith, text_eq_refl s)

pub eq_of_text_eq : (s t : Text) → text_eq s t ≡ true → s ≡ t
unfolding text_eq
eq_of_text_eq [] [] h = refl
eq_of_text_eq [] (b ∷ t) h = cc
eq_of_text_eq (a ∷ s) [] h = cc
eq_of_text_eq (a ∷ s) (b ∷ t) h = ground (arith, eq_of_text_eq s t)

pub text_eq_iff : (s t : Text) → (text_eq s t ≡ true) ↔ (s ≡ t)
text_eq_iff s t = (eq_of_text_eq s t, λ e. cc (e, text_eq_refl s))

-- s == ""
abbrev pub is_empty : Text → Bool
is_empty [] = true
is_empty (_ ∷ _) = false

lower_byte : ℕ → ℕ
lower_byte c = if leb b'A' c && leb c b'Z' then c + 32 else c

-- strings.ToLower
unfoldable pub to_lower : Text → Text
unfolding lower_byte
to_lower = map lower_byte

-- strings.HasPrefix
unfoldable pub has_prefix : Text → Text → Bool
has_prefix s [] = true
has_prefix [] (p ∷ ps) = false
has_prefix (c ∷ s) (p ∷ ps) = c == p && has_prefix s ps

-- strings.HasSuffix
unfoldable pub has_suffix : Text → Text → Bool
unfolding has_prefix
has_suffix s suffix = has_prefix (reverse s) (reverse suffix)

-- strings.TrimPrefix
unfoldable pub trim_prefix : Text → Text → Text
unfolding has_prefix
trim_prefix s p = if has_prefix s p then drop (length p) s else s

-- strings.TrimSuffix
unfoldable pub trim_suffix : Text → Text → Text
unfolding has_suffix
trim_suffix s p = if has_suffix s p then take (length s - length p) s else s

-- strings.Contains
unfoldable pub contains : Text → Text → Bool
unfolding has_prefix
contains [] p = has_prefix [] p
contains (c ∷ s) p = has_prefix (c ∷ s) p || contains s p

is_space : ℕ → Bool
is_space c = c == 32 || (leb 9 c && leb c 13)

trim_left : Text → Text
unfolding is_space
trim_left [] = []
trim_left (c ∷ s) = if is_space c then trim_left s else c ∷ s

-- strings.TrimSpace
unfoldable pub trim_space : Text → Text
unfolding trim_left
trim_space s = reverse (trim_left (reverse (trim_left s)))

-- Puts a byte in front of the first part.
abbrev pub cons_first : ℕ → List Text → List Text
cons_first c [] = (c ∷ []) ∷ []
cons_first c (p ∷ ps) = (c ∷ p) ∷ ps

-- strings.Split at a separator of one byte
unfoldable pub split : ℕ → Text → List Text
split sep [] = [] ∷ []
split sep (c ∷ s) = let rest = split sep s in if c == sep then [] ∷ rest else cons_first c rest

-- strings.Join
unfoldable pub join : Text → List Text → Text
join sep [] = []
join sep (p ∷ []) = p
join sep (p ∷ q ∷ ps) = p ++ sep ++ join sep (q ∷ ps)
