-- ===== src/Checks/Laws.antt =====
-- When the component check passes.
use openim_project_template.Base.{
  ℕ, zero, suc, ◌+◌, String, ◌≡◌, ◌≢◌, ◌↔◌, inl, inr, refl, ◌∙◌, sym, ◌==◌, string_eq, Bool, true,
  false, ◌||◌, ◌&&◌, Option, none, some, List, [], ◌∷◌, contains, arith, Bool-cases,
}
use native.Mathlib.Nat.{zero-add, suc-add, add-zero}
use native.Mathlib.Numerals.{add-one}
use openim_project_template.Base.Dict.{Dict, lookup-insert, lookup-nil}
use openim_project_template.Errors.{Error}
use openim_project_template.Checks.{
  Calls, Trace, passed, check, is_done, Round, visit, round, attempts, perform_checks, components,
}

abbrev pub is_nil : Option Error → Bool
is_nil none = true
is_nil (some e) = false

module _ (env : ℕ → String → Option Error) where
  -- Some round before round `i` answers nil for the component.
  abbrev pub ever : ℕ → String → Bool
  ever zero name = false
  ever (suc i) name = ever i name || is_nil (check env i name)

  abbrev all_pass : ℕ → List String → Dict String Bool → Bool
  all_pass i [] done = true
  all_pass i (name ∷ names) done =
      (is_done name done || is_nil (check env i name)) && all_pass i names done

  pub is_done-visit :
      (i : ℕ) (name : String) (r : Round) (x : String)
      → is_done x (visit env i name r).checks_done
        ≡ (is_done x r.checks_done || x == name && is_nil (check env i x))
  is_done-visit i name r x = ground (arith, lookup-insert x name true r.checks_done)

  is_done-round :
      (i : ℕ) (names : List String) (r : Round) (x : String)
      → is_done x (round env i names r).checks_done
        ≡ (is_done x r.checks_done || contains names x && is_nil (check env i x))
  unfolding round
  is_done-round i [] r x = ground arith
  is_done-round i (name ∷ names) r x =
      is_done-round i names (visit env i name r) x ∙ rw is_done-visit (ground arith)

  all_pass-visit :
      (i : ℕ) (names : List String) (name : String) (r : Round)
      → all_pass i names (visit env i name r).checks_done ≡ all_pass i names r.checks_done
  all_pass-visit i [] name r = refl
  all_pass-visit i (x ∷ names) name r =
      rw (is_done-visit, all_pass-visit i names name r) (ground arith)

  all_success-visit :
      (i : ℕ) (name : String) (r : Round)
      → (visit env i name r).all_success
        ≡ (r.all_success && (is_done name r.checks_done || is_nil (check env i name)))
  all_success-visit i name r = ground arith

  all_success-round :
      (i : ℕ) (names : List String) (r : Round)
      → (round env i names r).all_success ≡ (r.all_success && all_pass i names r.checks_done)
  unfolding round
  all_success-round i [] r = ground arith
  all_success-round i (name ∷ names) r =
      all_success-round i names (visit env i name r)
      ∙ rw (all_success-visit, all_pass-visit) (ground arith)

  all_pass_iff :
      (i : ℕ) (names : List String) (done : Dict String Bool)
      → (all_pass i names done ≡ true) ↔ (
          (x : String)
          → contains names x ≡ true
          → (is_done x done || is_nil (check env i x)) ≡ true)
  all_pass_iff i [] done = (λ _ x m. absurd (ground arith), λ _. refl)
  all_pass_iff i (name ∷ names) done =
      let (to, from) = all_pass_iff i names done in
      (
        λ h x m. elim (string_eq.dec x name) [
          | yes e ↦ ground arith
          | no n ↦ to (ground arith) x (ground arith)
        ],
        λ h. ground (arith, h name, from (λ x m. h x (ground arith))),
      )

  -- All components have passed before round `i`.
  abbrev pub AllEver : ℕ → List String → Type 0
  AllEver i names = (x : String) → contains names x ≡ true → ever i x ≡ true

  ever-add : (j i : ℕ) (x : String) → ever i x ≡ true → ever (j + i) x ≡ true
  ever-add zero i x h = rw zero-add h
  ever-add (suc j) i x h = rw suc-add (ground (arith, ever-add j i x h))

  module _ (order : ℕ → List String) (names : List String)
      (same : (i : ℕ) (x : String) → contains (order i) x ≡ contains names x) where
    -- `done` holds what the rounds before round `i` have answered.
    abbrev pub Records : ℕ → Dict String Bool → Type 0
    Records i done = (x : String) → contains names x ≡ true → is_done x done ≡ ever i x

    abbrev pub start : Dict String Bool → Calls → Round
    start done calls = record { checks_done = done; all_success = true; calls = calls }

    pub Records-round :
        (i : ℕ) (done : Dict String Bool) (calls : Calls)
        → Records i done
        → Records (suc i) (round env i (order i) (start done calls)).checks_done
    Records-round i done calls r x m =
        is_done-round i (order i) (start done calls) x ∙ ground (arith, r x m, same i x)

    pub round_passes_iff :
        (i : ℕ) (done : Dict String Bool) (calls : Calls)
        → Records i done
        → ((round env i (order i) (start done calls)).all_success ≡ true) ↔ AllEver (suc i) names
    round_passes_iff i done calls r =
        let (to, from) = all_pass_iff i (order i) done in
        (
          λ h x m. ground (
            arith,
            r x m,
            to (sym (all_success-round i (order i) (start done calls)) ∙ h) x (same i x ∙ m),
          ),
          λ h.
              all_success-round i (order i) (start done calls)
              ∙ from (λ x m. let n = sym (same i x) ∙ m in ground (arith, r x n, h x n)),
        )

    attempts-passed_iff :
        (retries left i : ℕ) (done : Dict String Bool) (t : Trace)
        → Records i done
        → ((attempts env order retries left i done t).0 ≡ passed)
          ↔ ((left ≢ 0) × AllEver (left + i) names)
    unfolding attempts
    attempts-passed_iff retries zero i done t r =
        (λ h. cc, λ (some_left, _). absurd (some_left refl))
    attempts-passed_iff retries (suc left) i done t r =
        let calls = t.calls in
        let rest = attempts-passed_iff retries left (suc i) _ _ (Records-round i done calls r) in
        let (to, from) = round_passes_iff i done calls r in
        let next : suc left + i ≡ left + suc i = omega arith in
        elim (Bool-cases (round env i (order i) (start done calls)).all_success) [
          | inl all ↦ (
            λ _. (λ e. omega arith, λ x m. rw next (ever-add left (suc i) x (to all x m))),
            λ _. rw all,
          )
          | inr some_failed ↦ (
            λ h.
                let (_, a) = rest.0 (rw (some_failed, add-one) at h) in
                (λ e. omega arith, λ x m. rw next (a x m)),
            λ (_, a).
                rw (some_failed, add-one)
                  (rest.1 (
                    λ e.
                        let last : suc left + i ≡ suc i = omega arith in
                        absurd (cc (some_failed, from (λ x m. rw last at (a x m)))),
                    λ x m. rw next at (a x m),
                  )),
          )
        ]

-- If each round visits the components, in any order, the check passes exactly if each of them
-- answers without an error in some round below the number of retries.
pub perform_checks-passed_iff :
    (env : ℕ → String → Option Error) (order : ℕ → List String) (enable : String) (retries : ℕ)
    → ((i : ℕ) (x : String) → contains (order i) x ≡ contains (components enable) x)
    → ((perform_checks env order retries).0 ≡ passed) ↔ AllEver env retries (components enable)
unfolding perform_checks
perform_checks-passed_iff env order enable retries same =
    let (to, from) =
      attempts-passed_iff env order (components enable) same retries retries 0 [] _
        (λ x m. ground (arith, lookup-nil {V = Bool} x)) in
    (λ h x m. rw add-zero at ((to h).1 x m), λ a. from (some_round a, λ x m. rw add-zero (a x m)))
  where
    some_round : AllEver env retries (components enable) → retries ≢ 0
    some_round a e = absurd (ground (arith, a "Mongo"))
