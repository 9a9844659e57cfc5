-- ===== src/Common/Totals.antt =====
-- A weight summed over a list.
use Prim.Native.Nat.{ℕ, ◌+◌}
use mathlib.Core.Path.{◌≡◌}
use mathlib.Core.List.{List, [], ◌∷◌, ◌++◌}
use native.Mathlib.Omega.{arith}

module _ {ℓ} {A : Type ℓ} (w : A → ℕ) where
  unfoldable pub total : List A → ℕ
  total [] = 0
  total (x ∷ xs) = w x + total xs

  pub total-at :
      (before after : List A) (x : A)
      → total (before ++ (x ∷ after)) ≡ w x + (total before + total after)
  unfolding total
  total-at [] after x = omega arith
  total-at (y ∷ before) after x = omega (arith, total-at before after x)

  -- One element in place of another.
  pub total-swap :
      (before after : List A) (x y : A)
      → total (before ++ (y ∷ after)) + w x ≡ total (before ++ (x ∷ after)) + w y
  total-swap before after x y = omega (arith, total-at before after x, total-at before after y)
