-- ===== src/Base/Outcomes.antt =====
-- What a Go call ends in: a value, an error (its other results being zero), or a panic; and the
-- same for calls that change a state `S`, which keeps what was written before an error or a panic.
use mathlib.Core.Path.{◌≡◌, refl}
use mathlib.Core.Logic.{◌⊎◌, inl, inr}
use openim_project_template.Errors.{Error}

pub data Res {ℓ} (A : Type ℓ) : Type ℓ where
  ok : A → Res A
  err : Error → Res A
  panics : Res A

abbrev pub bind_res {ℓ κ} : {A : Type ℓ} {B : Type κ} → Res A → (A → Res B) → Res B
bind_res (ok a) f = f a
bind_res (err e) f = err e
bind_res panics f = panics

abbrev pub Act {ℓ} : Type ℓ → Type ℓ → Type ℓ
Act S A = S → Res A × S

module _ {ℓ} {S A B : Type ℓ} where
  abbrev pub continue : Res A → (A → Act S B) → Act S B
  continue (ok a) f s = f a s
  continue (err e) f s = (err e, s)
  continue panics f s = (panics, s)

  infixl 10 ◌>>=◌ ◌>>◌
  abbrev pub ◌>>=◌ : Act S A → (A → Act S B) → Act S B
  ◌>>=◌ m f s = continue (m s).0 f (m s).1

  abbrev pub ◌>>◌ : Act S A → Act S B → Act S B
  m >> n = m >>= λ _. n

module _ {ℓ} {S A : Type ℓ} where
  -- A call that touches no state.
  abbrev pub lift : Res A → Act S A
  lift r s = (r, s)

  abbrev pub pure : A → Act S A
  pure a s = (ok a, s)

  abbrev pub fail : Error → Act S A
  fail e s = (err e, s)

-- To split on a computed outcome and keep the equation.
pub Res-cases {ℓ} :
    {A : Type ℓ} (r : Res A) → ((a : A) × (r ≡ ok a)) ⊎ (((e : Error) × (r ≡ err e)) ⊎ (r ≡ panics))
Res-cases (ok a) = inl (a, refl)
Res-cases (err e) = inr (inl (e, refl))
Res-cases panics = inr (inr refl)
