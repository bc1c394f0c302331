-- ===== src/Prelude/Predicates.antt =====
-- Membership and universal quantification by recursion, so that tactics compute with them.
use mathlib.Core.Path.{◌≡◌}
use mathlib.Core.Logic.{◌⊎◌}
use mathlib.Core.List.{List, [], ◌∷◌}

abbrev pub All {κ} : {X : Type 0} → (X → Type κ) → List X → Type κ
All Good [] = Unit
All Good (first ∷ others) = Good first × All Good others

-- Membership that says where.
abbrev pub In : {A : Type 0} → A → List A → Type 0
In a [] = ⊥
In a (x ∷ xs) = (a ≡ x) ⊎ In a xs
