-- ===== src/Base/Membership.antt =====
-- Membership by a Boolean test, and what holds of every member.
use mathlib.Core.Path.{◌≡◌, refl}
use mathlib.Core.Bool.{true, ◌||◌}
use mathlib.Core.List.{List, [], ◌∷◌, ◌++◌}
use native.Mathlib.Omega.{arith}
use openim_project_template.Base.Equality.{Eq, contains}
use openim_project_template.Base.Lists.{All}

module _ {ℓ} {A : Type ℓ} ⦃e : Eq A⦄ where
  pub contains-append :
      (xs ys : List A) (a : A) → contains (xs ++ ys) a ≡ contains xs a || contains ys a
  contains-append [] ys a = refl
  contains-append (x ∷ xs) ys a = ground (arith, contains-append xs ys a)

  pub All-contains {κ} :
      (P : A → Type κ) (a : A) (xs : List A) → All P xs → contains xs a ≡ true → P a
  All-contains P a [] h m = absurd (ground arith)
  All-contains P a (x ∷ xs) (h, hs) m = elim (e.dec a x) [
    | yes p ↦ rw p h
    | no n ↦ All-contains P a xs hs (ground arith)
  ]

  pub All-of_contains {κ} :
      (P : A → Type κ) (xs : List A) → ((a : A) → contains xs a ≡ true → P a) → All P xs
  All-of_contains P [] h = tt
  All-of_contains P (x ∷ xs) h =
      (h x (ground arith), All-of_contains P xs (λ a m. h a (ground (arith, m))))
