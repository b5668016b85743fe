-- ===== src/Base/Counting.antt =====
-- Sums over a list, which do not depend on its order.
use Prim.Native.Nat.{ℕ, ◌+◌}
use mathlib.Core.Path.{◌≡◌, refl, ap, ◌∙◌}
use mathlib.Core.Logic.{∥∥₁_elim}
use mathlib.Core.List.{List, [], ◌∷◌, Perm, Permᴰ}
use native.Mathlib.Nat.{ℕ_set}
use native.Mathlib.Omega.{arith}

abbrev pub total {ℓ} : {A : Type ℓ} → (A → ℕ) → List A → ℕ
total f [] = 0
total f (x ∷ xs) = f x + total f xs

module _ {ℓ} {A : Type ℓ} (f : A → ℕ) where
  total-Permᴰ : {xs ys : List A} → Permᴰ xs ys → total f xs ≡ total f ys
  total-Permᴰ Permᴰ.nil = refl
  total-Permᴰ (Permᴰ.cons e p) = omega (arith, ap f e, total-Permᴰ p)
  total-Permᴰ (Permᴰ.swap e g) = omega (arith, ap f e, ap f g)
  total-Permᴰ (Permᴰ.trans p q) = total-Permᴰ p ∙ total-Permᴰ q

  pub total-Perm : {xs ys : List A} → Perm xs ys → total f xs ≡ total f ys
  total-Perm p = ∥∥₁_elim p (ℕ_set _ _) total-Permᴰ
