-- ===== src/Startup/Registered.antt =====
-- Which registrations at the discovery an action of a start puts into its log.
use openim_project_template.Base.{
  ℕ, String, ◌≡◌, refl, ◌∙◌, ◌==◌, ◌&&◌, ◌||◌, string_eq, nat_eq, Bool, true, false, Option, none,
  some, [], ◌∷◌, ◌++◌, Res, ok, err, panics, Act, continue, lift, fail, ◌>>=◌, arith,
}
use openim_project_template.Errors.{Error}
use openim_project_template.Startup.{
  Effect, Resource, listener, client, server, acquired, released, called_rpc_fn, registered,
  serving, serving_metrics, sigterm_exit, stopped_server, shut_down, Log, scoped, defer, emit, try,
}

module _ (n i : String) (p : ℕ) where
  abbrev pub is_registration : Effect → Bool
  is_registration (registered n' i' p') = n == n' && i == i' && p == p'
  is_registration (acquired r) = false
  is_registration (released r) = false
  is_registration called_rpc_fn = false
  is_registration (serving a) = false
  is_registration (serving_metrics q) = false
  is_registration sigterm_exit = false
  is_registration stopped_server = false
  is_registration shut_down = false

  -- The log has a registration of the name at the address and port.
  abbrev pub has_registration : Log → Bool
  has_registration [] = false
  has_registration (e ∷ log) = is_registration e || has_registration log

  pub has_registration-append :
      (s t : Log) → has_registration (s ++ t) ≡ (has_registration s || has_registration t)
  has_registration-append [] t = refl
  has_registration-append (e ∷ s) t = ground (arith, has_registration-append s t)

  -- A step that fails adds no registration.
  pub ok-of_registered :
      {A : Type 0} (r : Res A) (f : A → Act Log (Unit {0})) (log : Log)
      → has_registration log ≡ false
      → has_registration (continue r f log).1 ≡ true
      → (a : A) × (r ≡ ok a) × (has_registration (f a log).1 ≡ true)
  ok-of_registered (ok a) f log no_log h = (a, refl, h)
  ok-of_registered (err e) f log no_log h = absurd (ground (arith, no_log, h))
  ok-of_registered panics f log no_log h = absurd (ground (arith, no_log, h))

  pub none-of_registered :
      (o : Option Error) (f : Unit {0} → Act Log (Unit {0})) (log : Log)
      → has_registration log ≡ false
      → has_registration (continue (try o log).0 f (try o log).1).1 ≡ true
      → (o ≡ none) × (has_registration (f tt log).1 ≡ true)
  none-of_registered none f log no_log h = (refl, h)
  none-of_registered (some e) f log no_log h = absurd (ground (arith, no_log, h))

  -- An action that registers nothing.
  pub record Silent {A : Type 0} (m : Act Log A) : Type 0 where
    pub adds : (log : Log) → has_registration (m log).1 ≡ has_registration log

  pub Silent-lift : {A : Type 0} (r : Res A) → Silent (lift {S = Log} r)
  Silent-lift r = record { adds = λ log. refl }

  pub Silent-fail : {A : Type 0} (e : Error) → Silent (fail {S = Log} {A = A} e)
  Silent-fail e = record { adds = λ log. refl }

  pub Silent-emit : (e : Effect) → is_registration e ≡ false → Silent (emit e)
  unfolding emit
  Silent-emit e h = record { adds = λ log. ground (arith, h, has_registration-append log (e ∷ [])) }

  continue-Silent :
      {A B : Type 0} (r : Res A) (f : A → Act Log B) (log : Log)
      → ((a : A) → Silent (f a))
      → has_registration (continue r f log).1 ≡ has_registration log
  continue-Silent (ok a) f log h = (h a).adds log
  continue-Silent (err e) f log h = refl
  continue-Silent panics f log h = refl

  pub Silent-bind :
      {A B : Type 0} (m : Act Log A) (f : A → Act Log B)
      → Silent m
      → ((a : A) → Silent (f a))
      → Silent (m >>= f)
  Silent-bind m f hm hf = record {
    adds = λ log. continue-Silent (m log).0 f (m log).1 hf ∙ hm.adds log;
  }

  pub ruleset silent_rules = (Silent-lift, Silent-fail, Silent-emit, Silent-bind)

  pub of_scoped :
      (r : Resource) (m : Act Log (Unit {0})) (log : Log)
      → has_registration (scoped r m log).1 ≡ true
      → has_registration (m (log ++ acquired r ∷ [])).1 ≡ true
  unfolding scoped defer emit
  of_scoped r m log h =
      ground (arith, h, has_registration-append (m (log ++ acquired r ∷ [])).1 (released r ∷ []))

  -- The deferred calls neither add nor remove a registration.
  pub released_last :
      (log : Log)
      → has_registration
          (((log ++ released server ∷ []) ++ released client ∷ []) ++ released listener ∷ [])
        ≡ has_registration log
  released_last log = ground (
    arith,
    has_registration-append log (released server ∷ []),
    has_registration-append (log ++ released server ∷ []) (released client ∷ []),
    has_registration-append ((log ++ released server ∷ []) ++ released client ∷ [])
        (released listener ∷ []),
  )

pub is_registration-same :
    (n n' i i' : String) (p p' : ℕ)
    → is_registration n i p (registered n' i' p') ≡ true
    → (n ≡ n') × (i ≡ i') × (p ≡ p')
is_registration-same n n' i i' p p' h = elim (string_eq.dec n n') [
  | no other ↦ absurd (ground (arith, h, other))
  | yes a ↦ elim (string_eq.dec i i') [
    | no other ↦ absurd (ground (arith, h, a, other))
    | yes b ↦ elim (nat_eq.dec p p') [
      | no other ↦ absurd (ground (arith, h, a, b, other))
      | yes c ↦ (a, b, c)
    ]
  ]
]
