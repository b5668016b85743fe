-- ===== src/Base/Dict.antt =====
-- Go maps as association lists; a write to a key replaces its entry. Iteration order is not
-- read off the list: code that ranges over a map takes the order as an argument.
use mathlib.Core.Path.{◌≡◌, refl}
use mathlib.Core.Option.{Option, none, some}
use mathlib.Core.Bool.{Bool, true, false, not, ◌||◌, ◌&&◌}
use mathlib.Core.List.{List, [], ◌∷◌}
use native.Mathlib.Omega.{arith}
use openim_project_template.Base.Equality.{Eq, ◌==◌, if◌then◌else◌}

abbrev pub Dict {ℓ κ} : Type ℓ → Type κ → Type (ℓ ⊔ κ)
Dict K V = List (K × V)

module _ {ℓ κ} {K : Type ℓ} {V : Type κ} ⦃e : Eq K⦄ where
  -- `v, ok := m[k]`
  unfoldable pub lookup : K → Dict K V → Option V
  lookup k [] = none
  lookup k ((j, v) ∷ m) = if k == j then some v else lookup k m

  -- `m[k] = v`
  unfoldable pub insert : K → V → Dict K V → Dict K V
  insert k v [] = (k, v) ∷ []
  insert k v ((j, w) ∷ m) = if k == j then (k, v) ∷ m else (j, w) ∷ insert k v m

  pub lookup-nil : (k : K) → lookup k [] ≡ none
  unfolding lookup
  lookup-nil k = refl

  pub lookup-insert :
      (j k : K) (v : V) (m : Dict K V)
      → lookup j (insert k v m) ≡ (if j == k then some v else lookup j m)
  unfolding lookup insert
  lookup-insert j k v [] = ground arith
  lookup-insert j k v ((i, w) ∷ m) = ground (arith, lookup-insert j k v m)

  abbrev pub has_key : K → Dict K V → Bool
  has_key k [] = false
  has_key k ((j, v) ∷ m) = k == j || has_key k m

  -- No key has two entries.
  abbrev pub is_map : Dict K V → Bool
  is_map [] = true
  is_map ((j, v) ∷ m) = not (has_key j m) && is_map m

  pub has_key-insert :
      (j k : K) (v : V) (m : Dict K V) → has_key j (insert k v m) ≡ (j == k || has_key j m)
  unfolding insert
  has_key-insert j k v [] = refl
  has_key-insert j k v ((i, w) ∷ m) = ground (arith, has_key-insert j k v m)

  pub is_map-insert :
      (k : K) (v : V) (m : Dict K V) → is_map m ≡ true → is_map (insert k v m) ≡ true
  unfolding insert
  is_map-insert k v [] h = refl
  is_map-insert k v ((i, w) ∷ m) h = ground (arith, is_map-insert k v m, has_key-insert i k v m)
