-- ===== src/Base/Rows.antt =====
-- A table of the database as the list of its rows: what the queries of the services do with it.
use Prim.Native.Nat.{ℕ, suc}
use mathlib.Core.Path.{◌≡◌}
use mathlib.Core.Logic.{◌⊎◌}
use mathlib.Core.Bool.{Bool, false, not, ◌||◌}
use mathlib.Core.Option.{Option, none, some}
use mathlib.Core.List.{List, [], ◌∷◌}
use resaprint.Base.Tests.{◌==◌, if◌then◌else◌}

module _ {A : Type 0} where
  -- The member relation, which computes to a sum of equations.
  abbrev pub In : A → List A → Type 0
  In a [] = ⊥
  In a (x ∷ xs) = (a ≡ x) ⊎ In a xs

module _ {ℓ} {A : Type ℓ} where
  abbrev pub All {κ} : (A → Type κ) → List A → Type κ
  All P [] = Unit
  All P (x ∷ xs) = P x × All P xs

  abbrev pub length : List A → ℕ
  length [] = 0
  length (x ∷ xs) = suc (length xs)

  -- `select(...).where(p)`
  unfoldable pub select : (A → Bool) → List A → List A
  select p [] = []
  select p (x ∷ xs) = let rest = select p xs in if p x then x ∷ rest else rest

  -- `.scalars().first()`
  abbrev pub first : List A → Option A
  first [] = none
  first (x ∷ xs) = some x

  abbrev pub insert_by : (A → A → Bool) → A → List A → List A
  insert_by le x [] = x ∷ []
  insert_by le x (y ∷ ys) = let rest = insert_by le x ys in if le x y then x ∷ y ∷ ys else y ∷ rest

  -- `.order_by(...)`: a stable insertion sort by the database's order `le`.
  unfoldable pub order_by : (A → A → Bool) → List A → List A
  order_by le [] = []
  order_by le (x ∷ xs) = insert_by le x (order_by le xs)

  unfoldable pub any : (A → Bool) → List A → Bool
  any p [] = false
  any p (x ∷ xs) = p x || any p xs

  -- `db.get(Model, key)`, where `key_of` reads the primary key.
  unfoldable pub get : (A → ℕ) → ℕ → List A → Option A
  get key_of k [] = none
  get key_of k (x ∷ xs) = let rest = get key_of k xs in if key_of x == k then some x else rest

  -- The row with key `k` after its attributes were assigned.
  unfoldable pub update : (A → ℕ) → ℕ → (A → A) → List A → List A
  update key_of k f [] = []
  update key_of k f (x ∷ xs) = (if key_of x == k then f x else x) ∷ update key_of k f xs

  -- `db.delete(row)`
  unfoldable pub delete : (A → ℕ) → ℕ → List A → List A
  unfolding select
  delete key_of k xs = select (λ x. not (key_of x == k)) xs

-- `scalar_one_or_none()` raises when there are several rows.
pub data AtMostOne {ℓ} (A : Type ℓ) : Type ℓ where
  no_row : AtMostOne A
  one_row : A → AtMostOne A
  many_rows : AtMostOne A

abbrev pub at_most_one {ℓ} : {A : Type ℓ} → List A → AtMostOne A
at_most_one [] = no_row
at_most_one (x ∷ []) = one_row x
at_most_one (x ∷ y ∷ ys) = many_rows
