-- ===== src/Store/Rows.antt =====
-- What SQL does with the rows of a table: `UPDATE ... WHERE`, the affected rows, a lookup.
use agent_frei_igi.Prelude.{
  ℕ, ◌+◌, ◌≡◌, refl, Bool, true, false, ◌||◌, Option, none, some, List, [], ◌∷◌, ◌++◌, arith,
  if◌then◌else◌,
}

module _ {ℓ} {A : Type ℓ} where
  -- UPDATE t SET f WHERE p
  abbrev pub update_where : (A → Bool) → (A → A) → List A → List A
  update_where p f [] = []
  update_where p f (x ∷ xs) = (if p x then f x else x) ∷ update_where p f xs

  -- The number of rows that a condition selects.
  abbrev pub rows_where : (A → Bool) → List A → ℕ
  rows_where p [] = 0
  rows_where p (x ∷ xs) = (if p x then 1 else 0) + rows_where p xs

  abbrev pub any_row : (A → Bool) → List A → Bool
  any_row p [] = false
  any_row p (x ∷ xs) = p x || any_row p xs

  -- SELECT ... WHERE p, of which the first row is scanned
  abbrev pub first_row : (A → Bool) → List A → Option A
  first_row p [] = none
  first_row p (x ∷ xs) = if p x then some x else first_row p xs

  pub rows_where-zero :
      (p : A → Bool) (f : A → A) (xs : List A) → rows_where p xs ≡ 0 → update_where p f xs ≡ xs
  rows_where-zero p f [] h = refl
  rows_where-zero p f (x ∷ xs) h = ground (arith, rows_where-zero p f xs)

  pub first_row-append :
      (p : A → Bool) (xs ys : List A) {x : A}
      → first_row p xs ≡ some x
      → first_row p (xs ++ ys) ≡ some x
  first_row-append p [] ys h = cc
  first_row-append p (y ∷ xs) ys {x} h = ground (arith, first_row-append p xs ys {x = x})

  pub first_row-holds : (p : A → Bool) (xs : List A) {x : A} → first_row p xs ≡ some x → p x ≡ true
  first_row-holds p [] h = cc
  first_row-holds p (y ∷ xs) {x} h = ground (arith, first_row-holds p xs {x = x})

  -- An update whose new rows are selected as the old ones were commutes with the lookup.
  pub first_row-update :
      (q p : A → Bool) (f : A → A)
      → ((a : A) → q (f a) ≡ q a)
      → (xs : List A) {x : A} → first_row q xs ≡ some x
      → first_row q (update_where p f xs) ≡ some (if p x then f x else x)
  first_row-update q p f keeps [] h = cc
  first_row-update q p f keeps (y ∷ xs) {x} h =
      ground (arith, keeps y, first_row-update q p f keeps xs {x = x})

  pub any_row-update :
      (q p : A → Bool) (f : A → A)
      → ((a : A) → q (f a) ≡ q a)
      → (xs : List A) → any_row q (update_where p f xs) ≡ any_row q xs
  any_row-update q p f keeps [] = refl
  any_row-update q p f keeps (y ∷ xs) = ground (arith, keeps y, any_row-update q p f keeps xs)

  pub any_row-first :
      (q p : A → Bool) (xs : List A) {x : A}
      → any_row q xs ≡ false
      → first_row p xs ≡ some x
      → q x ≡ false
  any_row-first q p [] h e = cc
  any_row-first q p (y ∷ xs) {x} h e = ground (arith, any_row-first q p xs {x = x})
