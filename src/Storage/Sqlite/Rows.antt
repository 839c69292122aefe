-- ===== src/Storage/Sqlite/Rows.antt =====
-- What a statement does with the rows of a table.
pub mod Laws
use prm.Prelude.{
  ◌≡◌, refl, ap, Bool, true, false, not, ◌&&◌, Option, none, some, List, [], ◌∷◌, if◌then◌else◌,
}
use native.Mathlib.Omega.{arith}

module _ {ℓ} {A : Type ℓ} (p : A → Bool) where
  -- The first row that the condition holds of.
  unfoldable pub first : List A → Option A
  first [] = none
  first (x ∷ xs) = if p x then some x else first xs

  -- `WHERE`
  unfoldable pub keep : List A → List A
  keep [] = []
  keep (x ∷ xs) = let rest = keep xs in if p x then x ∷ rest else rest

  -- `UPDATE … SET … WHERE`
  unfoldable pub change : (A → A) → List A → List A
  change f [] = []
  change f (x ∷ xs) = (if p x then f x else x) ∷ change f xs
