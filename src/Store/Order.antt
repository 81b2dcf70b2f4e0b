-- ===== src/Store/Order.antt =====
-- ORDER BY, which the database implements: a parameter of the definitions that use it.
use mqtt_chat.Base.{ℕ, ◌≤◌, Bool, List, [], ◌∷◌, count, ◌≡◌}

abbrev pub IsSorted : {Row : Type 0} → (Row → ℕ) → List Row → Type 0
IsSorted key [] = Unit
IsSorted key (x ∷ []) = Unit
IsSorted key (x ∷ y ∷ rest) = (key x ≤ key y) × IsSorted key (y ∷ rest)

-- The same rows, each as often as before, in the order of their keys; equal keys are in any order.
pub record IsOrderBy {Row : Type 0} (key : Row → ℕ) (order : List Row → List Row) : Type 0 where
  pub same_rows : (p : Row → Bool) (rows : List Row) → count p (order rows) ≡ count p rows
  pub sorted : (rows : List Row) → IsSorted key (order rows)
