-- ===== src/Startup/Scopes.antt =====
-- Actions that open resources one inside of the other, and close them in reverse order, whatever
-- their outcome.
use openim_project_template.Base.{
  ◌≡◌, refl, sym, ap, ◌∙◌, List, [], ◌∷◌, ◌++◌, Option, Res, ok, err, panics, Act, lift, fail,
  continue, ◌>>=◌, Bool, true, false, All,
}
use mathlib.Core.List.{append-nil, append_assoc}
use openim_project_template.Errors.{Error}
use openim_project_template.Startup.{
  Resource, Effect, acquired, released, called_rpc_fn, registered, serving, serving_metrics,
  sigterm_exit, stopped_server, shut_down, Log, defer, emit, scoped, try,
}

-- An effect that is no opening and no deferred closing. The `GracefulStop` of the case of a signal is
-- one of them: it stops the server before the deferred call does.
abbrev pub is_inner : Effect → Bool
is_inner (acquired r) = false
is_inner (released r) = false
is_inner called_rpc_fn = true
is_inner (registered n i p) = true
is_inner (serving a) = true
is_inner (serving_metrics p) = true
is_inner sigterm_exit = true
is_inner stopped_server = true
is_inner shut_down = true

-- Effects that open the first of the resources, each inside of the one before, and close what they
-- have opened, the last one first; all other effects come where all of the resources are open.
pub data IsNest : List Resource → Log → Type 0 where
  inner : {t : Log} → All (λ e. is_inner e ≡ true) t → IsNest [] t
  nothing : {r : Resource} {rs : List Resource} → IsNest (r ∷ rs) []
  opens :
      {r : Resource} {rs : List Resource} {t : Log}
      → IsNest rs t
      → IsNest (r ∷ rs) (acquired r ∷ t ++ released r ∷ [])

-- The second log goes on from the first with such effects.
abbrev pub Adds : List Resource → Log → Log → Type 0
Adds rs log log' = (t : Log) × (log' ≡ log ++ t) × IsNest rs t

pub record Nests {A : Type 0} (rs : List Resource) (m : Act Log A) : Type 0 where
  pub adds : (log : Log) → Adds rs log (m log).1

-- An action without an effect.
pub record Idle {A : Type 0} (m : Act Log A) : Type 0 where
  pub keeps : (log : Log) → (m log).1 ≡ log

pub Idle-lift : {A : Type 0} (r : Res A) → Idle (lift {S = Log} r)
Idle-lift r = record { keeps = λ log. refl }

pub Idle-try : (o : Option Error) → Idle (try o)
Idle-try o = record { keeps = λ log. refl }

no_effect : (rs : List Resource) → IsNest rs []
no_effect [] = inner tt
no_effect (r ∷ rs) = nothing

pub Adds-refl : (rs : List Resource) (log : Log) → Adds rs log log
Adds-refl rs log = ([], sym (append-nil log), no_effect rs)

pub Nests-lift : {A : Type 0} (rs : List Resource) (r : Res A) → Nests rs (lift {S = Log} r)
Nests-lift rs r = record { adds = Adds-refl rs }

pub Nests-try : (rs : List Resource) (o : Option Error) → Nests rs (try o)
Nests-try rs o = record { adds = Adds-refl rs }

pub Nests-fail : {A : Type 0} (rs : List Resource) (e : Error) → Nests rs (fail {S = Log} {A = A} e)
Nests-fail rs e = record { adds = Adds-refl rs }

pub Nests-emit : (e : Effect) → is_inner e ≡ true → Nests [] (emit e)
unfolding emit
Nests-emit e h = record { adds = λ log. (e ∷ [], refl, inner (h, tt)) }

continue-Nests :
    {A B : Type 0} (rs : List Resource) (r : Res A) (f : A → Act Log B) (log : Log)
    → ((a : A) → Nests rs (f a))
    → Adds rs log (continue r f log).1
continue-Nests rs (ok a) f log h = (h a).adds log
continue-Nests rs (err e) f log h = Adds-refl rs log
continue-Nests rs panics f log h = Adds-refl rs log

inner_of_nest : {t : Log} → IsNest [] t → All (λ e. is_inner e ≡ true) t
inner_of_nest (inner h) = h

inner-append :
    (s t : Log)
    → All (λ e. is_inner e ≡ true) s
    → All (λ e. is_inner e ≡ true) t
    → All (λ e. is_inner e ≡ true) (s ++ t)
inner-append [] t h k = k
inner-append (e ∷ s) t (one, h) k = (one, inner-append s t h k)

pub Nests-bind :
    {A B : Type 0} (m : Act Log A) (f : A → Act Log B)
    → Nests [] m
    → ((a : A) → Nests [] (f a))
    → Nests [] (m >>= f)
Nests-bind m f hm hf = record {
  adds = λ log.
      let (s, at_s, in_s) = hm.adds log in
      let (t, at_t, in_t) = continue-Nests [] (m log).0 f (m log).1 hf in
      (
        s ++ t,
        at_t ∙ ap (λ l. l ++ t) at_s ∙ append_assoc log s t,
        inner (inner-append s t (inner_of_nest in_s) (inner_of_nest in_t)),
      );
}

-- Before an action that opens resources there is no effect.
pub Nests-after :
    {A B : Type 0} (rs : List Resource) (m : Act Log A) (f : A → Act Log B)
    → Idle m
    → ((a : A) → Nests rs (f a))
    → Nests rs (m >>= f)
Nests-after rs m f hm hf = record {
  adds = λ log.
      let (t, at, nest) = continue-Nests rs (m log).0 f (m log).1 hf in
      (t, at ∙ ap (λ l. l ++ t) (hm.keeps log), nest);
}

pub Nests-scoped :
    {A : Type 0} (r : Resource) (rs : List Resource) (m : Act Log A)
    → Nests rs m
    → Nests (r ∷ rs) (scoped r m)
unfolding scoped emit defer
Nests-scoped r rs m h = record {
  adds = λ log.
      let (t, at, nest) = h.adds (log ++ acquired r ∷ []) in
      (
        acquired r ∷ t ++ released r ∷ [],
        ap (λ l. l ++ released r ∷ []) (at ∙ append_assoc log (acquired r ∷ []) t)
            ∙ append_assoc log (acquired r ∷ t) (released r ∷ []),
        opens nest,
      );
}

-- How an action without openings is put together, and one with them.
pub ruleset inner_rules = (Nests-lift, Nests-fail, Nests-try, Nests-emit, Nests-bind)

pub ruleset nest_rules = (Idle-lift, Idle-try, Nests-after, Nests-scoped)
