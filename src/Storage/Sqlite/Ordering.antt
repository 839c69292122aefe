-- ===== src/Storage/Sqlite/Ordering.antt =====
-- `ORDER BY` a number, with rows of the same number in their order.
pub mod Laws
use prm.Prelude.{ℕ, Bool, List, [], ◌∷◌, ltb, if◌then◌else◌}

module _ {ℓ} {A : Type ℓ} (before : A → A → Bool) where
  unfoldable pub insert_by : A → List A → List A
  insert_by x [] = x ∷ []
  insert_by x (y ∷ l) = let rest = insert_by x l in if before x y then x ∷ y ∷ l else y ∷ rest

  unfoldable pub sort_by : List A → List A → List A
  unfolding insert_by
  sort_by sorted [] = sorted
  sort_by sorted (x ∷ l) = sort_by (insert_by x sorted) l

abbrev pub ascending {ℓ} : {A : Type ℓ} → (A → ℕ) → List A → List A
ascending key l = sort_by (λ x y. ltb (key x) (key y)) [] l

abbrev pub descending {ℓ} : {A : Type ℓ} → (A → ℕ) → List A → List A
descending key l = sort_by (λ x y. ltb (key y) (key x)) [] l
