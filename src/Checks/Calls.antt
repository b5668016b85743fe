-- ===== src/Checks/Calls.antt =====
-- Which checks `performChecks` (tools/check-component/main.go) calls, and that it ends.
use openim_project_template.Base.{
  ℕ, zero, suc, ◌+◌, ◌<◌, ◌≤◌, ltb, String, ◌≡◌, ◌⊎◌, inl, inr, refl, ◌∙◌, ◌==◌, string_eq, nat_eq,
  subst, Bool, false, not, ◌||◌, ◌&&◌, Option, List, [], ◌∷◌, ◌++◌, contains, arith, Bool-cases,
}
use native.Mathlib.Numerals.{add-one}
use openim_project_template.Base.Dict.{Dict, lookup-nil}
use openim_project_template.Errors.{Error}
use openim_project_template.Checks.{
  Verdict, passed, gave_up, Calls, Trace, is_done, Round, visit, round, attempts, perform_checks,
  components,
}
use openim_project_template.Checks.Laws.{
  ever, is_done-visit, Records, start, Records-round, AllEver, round_passes_iff,
}

-- The check of a component was called in a round.
abbrev pub called : Calls → ℕ → String → Bool
called [] j x = false
called ((i, name) ∷ calls) j x = (j == i && x == name) || called calls j x

called-append :
    (a b : Calls) (j : ℕ) (x : String) → called (a ++ b) j x ≡ (called a j x || called b j x)
called-append [] b j x = refl
called-append (_ ∷ a) b j x = ground (arith, called-append a b j x)

module _ (env : ℕ → String → Option Error) where
  called-visit :
      (i : ℕ) (name : String) (r : Round) (j : ℕ) (x : String)
      → called (visit env i name r).calls j x
        ≡ (called r.calls j x || j == i && (x == name && not (is_done x r.checks_done)))
  called-visit i name r j x = ground (arith, called-append r.calls ((i, name) ∷ []) j x)

  called-round :
      (i : ℕ) (names : List String) (r : Round) (j : ℕ) (x : String)
      → called (round env i names r).calls j x
        ≡ (called r.calls j x || j == i && (contains names x && not (is_done x r.checks_done)))
  unfolding round
  called-round i [] r j x = ground arith
  called-round i (name ∷ names) r j x =
      called-round i names (visit env i name r) j x
      ∙ rw (called-visit, is_done-visit) (ground arith)

ltb-suc : (j i : ℕ) → ltb j (suc i) ≡ (ltb j i || j == i)
unfolding nat_eq
ltb-suc j i = ground arith

-- In how many rounds checks were called: there is a sleep after each that did not pass.
abbrev pub rounds : Verdict × Trace → ℕ
rounds (passed, t) = suc t.sleeps
rounds (gave_up n, t) = t.sleeps

module _ (env : ℕ → String → Option Error) (order : ℕ → List String) (names : List String)
    (same : (i : ℕ) (x : String) → contains (order i) x ≡ contains names x) where
  -- The calls are those of the components that no earlier round has seen pass, in the rounds
  -- before round `i`.
  abbrev Recorded : ℕ → Calls → Type 0
  Recorded i calls =
      (j : ℕ) (x : String)
      → called calls j x ≡ (ltb j i && (contains names x && not (ever env j x)))

  Recorded-round :
      (i : ℕ) (done : Dict String Bool) (calls : Calls)
      → Records env order names same i done
      → Recorded i calls
      → Recorded (suc i) (round env i (order i) (start env order names same done calls)).calls
  Recorded-round i done calls r h j x =
      called-round env i (order i) (start env order names same done calls) j x
      ∙ rw (h j x, same i x, ltb-suc)
          (elim (nat_eq.dec j i) [
            | yes e ↦ elim (Bool-cases (contains names x)) [
              | inl m ↦ rw (e, r x m) (ground arith)
              | inr m ↦ ground (arith, m)
            ]
            | no n ↦ ground (arith, n)
          ])

  attempts-Recorded :
      (retries left i : ℕ) (done : Dict String Bool) (t : Trace)
      → Records env order names same i done
      → Recorded i t.calls
      → t.sleeps ≡ i
      → let out = attempts env order retries left i done t in Recorded (rounds out) out.1.calls
  unfolding attempts
  attempts-Recorded retries zero i done t r h e = rw e h
  attempts-Recorded retries (suc left) i done t r h e =
      let next = Recorded-round i done t.calls r h in
      elim (Bool-cases
        (round env i (order i) (start env order names same done t.calls)).all_success) [
          | inl all ↦ rw all (rw e next)
          | inr some_failed ↦
              rw (some_failed, add-one)
                (attempts-Recorded retries left (suc i) _ _
                  (Records-round env order names same i done t.calls r) next (omega arith))
        ]

-- What a check that starts in round `i` answers, and how often it has slept: it passes in the first
-- round by which every component has passed, and otherwise sleeps in each round.
abbrev pub Ends : (ℕ → String → Option Error) → List String → ℕ → Verdict × Trace → Type 0
Ends env names retries (v, t) =
    ((v ≡ passed)
      × (t.sleeps < retries)
      × AllEver env (suc t.sleeps) names
      × ((j : ℕ) → j ≤ t.sleeps → ¬ AllEver env j names))
    ⊎ ((v ≡ gave_up retries) × (t.sleeps ≡ retries) × (¬ AllEver env retries names))

module _ (env : ℕ → String → Option Error) (order : ℕ → List String) (names : List String)
    (same : (i : ℕ) (x : String) → contains (order i) x ≡ contains names x) where
  attempts-Ends :
      (retries left i : ℕ) (done : Dict String Bool) (t : Trace)
      → Records env order names same i done
      → t.sleeps ≡ i
      → i + left ≡ retries
      → ((j : ℕ) → j ≤ i → ¬ AllEver env j names)
      → Ends env names retries (attempts env order retries left i done t)
  unfolding attempts
  attempts-Ends retries zero i done t r e count not_yet =
      inr (refl, omega (arith, e, count), not_yet retries (omega (arith, count)))
  attempts-Ends retries (suc left) i done t r e count not_yet =
      let (to, from) = round_passes_iff env order names same i done t.calls r in
      elim (Bool-cases
        (round env i (order i) (start env order names same done t.calls)).all_success) [
          | inl all ↦ rw all (
              inl (
                refl,
                omega (arith, e, count),
                rw e (to all),
                λ j below. not_yet j (omega (arith, e, below)),
              ))
          | inr some_failed ↦
              rw (some_failed, add-one)
                (attempts-Ends retries left (suc i) _ _
                  (Records-round env order names same i done t.calls r) (omega (arith, e))
                  (omega (arith, count))
                  (λ j below. elim (nat_eq.dec j (suc i)) [
                    | yes last ↦ rw last (λ a. absurd (ground (arith, from a, some_failed)))
                    | no other ↦ not_yet j (omega (arith, below, other))
                  ]))
        ]

-- If each round visits the components, in any order, the component check either passes, after as
-- many sleeps as there are rounds before the first by which each component has answered without
-- an error in some round, and fewer than the number of retries; or it gives up, names that
-- number and has slept as often, and by then not every component has answered so.
pub perform_checks-Ends :
    (env : ℕ → String → Option Error) (order : ℕ → List String) (enable : String) (retries : ℕ)
    → ((i : ℕ) (x : String) → contains (order i) x ≡ contains (components enable) x)
    → Ends env (components enable) retries (perform_checks env order retries)
unfolding perform_checks
perform_checks-Ends env order enable retries same =
    attempts-Ends env order (components enable) same retries retries 0 [] _
      (λ x m. ground (arith, lookup-nil {V = Bool} x)) refl (omega arith)
      (λ j below a.
        let e : j ≡ 0 = omega (arith, below) in
        none_yet (subst (λ i. AllEver env i (components enable)) e a))
  where
    none_yet : ¬ AllEver env 0 (components enable)
    none_yet a = absurd (ground (arith, a "Mongo"))

-- If each round visits the components, in any order, the check of a component is called in a
-- round exactly if the round is run and no earlier one has seen the component pass.
pub called-perform_checks :
    (env : ℕ → String → Option Error) (order : ℕ → List String) (enable : String) (retries : ℕ)
    → ((i : ℕ) (x : String) → contains (order i) x ≡ contains (components enable) x)
    → (j : ℕ) (x : String)
    → called (perform_checks env order retries).1.calls j x ≡ (
        ltb j (rounds (perform_checks env order retries))
        && (contains (components enable) x && not (ever env j x)))
unfolding perform_checks
called-perform_checks env order enable retries same =
    attempts-Recorded env order (components enable) same retries retries 0 [] _
      (λ x m. ground (arith, lookup-nil {V = Bool} x)) (λ j x. ground arith) refl
