-- ===== src/Checks.antt =====
-- The component check, tools/check-component/main.go: rounds of checks until each component has
-- passed once. What the checks of MongoDB and etcd answer is the environment's choice.
pub mod Laws
pub mod Calls
pub mod Main
use openim_project_template.Base.{
  ℕ, zero, suc, ◌+◌, String, ◌==◌, string_eq, if◌then◌else◌, Bool, true, false, Option, none, some,
  List, [], ◌∷◌, ◌++◌,
}
use openim_project_template.Base.Dict.{Dict, lookup, insert}
use openim_project_template.Errors.{Error}

-- `const maxRetry`
abbrev pub max_retry : ℕ
max_retry = 180

-- `nil`, or the error that says after how many attempts the check gave up.
pub data Verdict : Type 0 where
  passed : Verdict
  gave_up : ℕ → Verdict

-- What the calls of the checks answer in each round, by the component's name: `CheckMongo` and
-- `CheckEtcd` call libraries. `CheckRedis` answers nil.
abbrev check_redis : Option Error
check_redis = none

unfoldable pub check : (ℕ → String → Option Error) → ℕ → String → Option Error
check env i name = if name == "Redis" then check_redis else env i name

-- The keys of the map `checks`, by the field `Enable` of the discovery configuration.
abbrev pub components : String → List String
components enable = "Mongo" ∷ "Redis" ∷ (if enable == "etcd" then "Etcd" ∷ [] else [])

-- `checksDone[name]`
abbrev is_true : Option Bool → Bool
is_true none = false
is_true (some b) = b

abbrev pub is_done : String → Dict String Bool → Bool
is_done name done = is_true (lookup name done)

-- The calls of the checks so far, each with its round.
abbrev pub Calls : Type 0
Calls = List (ℕ × String)

-- The variables of one round, `checksDone` and `allSuccess`, and the calls.
pub record Round : Type 0 where
  pub checks_done : Dict String Bool
  pub all_success : Bool
  pub calls : Calls

-- What a check does besides its verdict: its calls, and how often it sleeps for a second.
pub record Trace : Type 0 where
  pub calls : Calls
  pub sleeps : ℕ

module _ (env : ℕ → String → Option Error) where
  -- The body of the inner loop.
  abbrev visit_with : Option Error → String → Round → Round
  visit_with (some e) name r = record r { all_success = false }
  visit_with none name r = record r { checks_done = insert name true r.checks_done }

  abbrev visit : ℕ → String → Round → Round
  visit i name r =
      if is_done name r.checks_done
      then r
      else visit_with (check env i name) name (record r { calls = r.calls ++ (i, name) ∷ [] })

  -- The inner loop, over the keys of `checks` in the order that the map yields them.
  unfoldable pub round : ℕ → List String → Round → Round
  round i [] r = r
  round i (name ∷ names) r = round i names (visit i name r)

  module _ (order : ℕ → List String) where
    -- The outer loop from round `i` on, with the rounds that are left; it sleeps between rounds.
    unfoldable pub attempts : ℕ → ℕ → ℕ → Dict String Bool → Trace → Verdict × Trace
    attempts retries zero i done t = (gave_up retries, t)
    attempts retries (suc left) i done t =
        let r =
          round i (order i) (record { checks_done = done; all_success = true; calls = t.calls }) in
        let rest =
          attempts retries left (i + 1) r.checks_done
            (record { calls = r.calls; sleeps = t.sleeps + 1 }) in
        if r.all_success then (passed, record t { calls = r.calls }) else rest

    -- `performChecks`
    unfoldable pub perform_checks : ℕ → Verdict × Trace
    unfolding attempts
    perform_checks retries = attempts retries retries 0 [] (record { calls = []; sleeps = 0 })
