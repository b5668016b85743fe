-- ===== src/Startup/Steps.antt =====
-- An action that answers a value has come through each of its steps.
use openim_project_template.Base.{
  ◌≡◌, refl, Option, none, some, Res, ok, err, panics, Act, continue, arith,
}
use openim_project_template.Errors.{Error}
use openim_project_template.Startup.{Log, try}

pub ok-of_continue :
    {A : Type 0} (r : Res A) (f : A → Act Log (Unit {0})) (log : Log)
    → (continue r f log).0 ≡ ok tt
    → (a : A) × (r ≡ ok a) × ((f a log).0 ≡ ok tt)
ok-of_continue (ok a) f log h = (a, refl, h)
ok-of_continue (err e) f log h = absurd (ground arith)
ok-of_continue panics f log h = absurd (ground arith)

pub none-of_try :
    (o : Option Error) (f : Unit {0} → Act Log (Unit {0})) (log : Log)
    → (continue (try o log).0 f (try o log).1).0 ≡ ok tt
    → (o ≡ none) × ((f tt log).0 ≡ ok tt)
none-of_try none f log h = (refl, h)
none-of_try (some e) f log h = absurd (ground arith)
