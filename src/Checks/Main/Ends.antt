-- ===== src/Checks/Main/Ends.antt =====
-- When the program of tools/check-component/main.go ends by itself.
use openim_project_template.Base.{
  ℕ, zero, suc, ◌<◌, String, string_eq, true, ◌≡◌, ◌↔◌, ◌⊎◌, refl, Option, none, some, List, ok,
  arith, Res-cases, inl, inr, contains, Bool-cases, nat_eq, sym, ◌∙◌,
}
use openim_project_template.Errors.{Error}
use openim_project_template.Config.Settings.{Mongo, Discovery}
use openim_project_template.Config.Env.{mongodb_config_file_name, discovery_config_filename}
use openim_project_template.Command.Structs.{Platform, load_file}
use openim_project_template.Checks.{Verdict, passed, gave_up, perform_checks, check, components}
use openim_project_template.Checks.Laws.{ever, AllEver, is_nil, perform_checks-passed_iff}
use openim_project_template.Checks.Main.{
  done, Libraries, check_mongo, check_etcd, checks, init_config, ending_of, main,
}

-- Some round below the number of retries.
abbrev pub SomeRound : (ℕ → Type 0) → Type 0
SomeRound p = (i : ℕ) × (i < 180) × p i

none-of_nil : (o : Option Error) → is_nil o ≡ true → o ≡ none
none-of_nil none h = refl
none-of_nil (some e) h = absurd (ground arith)

module _ (env : ℕ → String → Option Error) (name : String) where
  ever_found : (n : ℕ) → ever env n name ≡ true → (i : ℕ) × (i < n) × (check env i name ≡ none)
  ever_found zero h = absurd (ground arith)
  ever_found (suc n) h = elim (Bool-cases (ever env n name)) [
    | inl before ↦ let (i, below, fine) = ever_found n before in (i, omega (arith, below), fine)
    | inr not_yet ↦ (n, omega arith, none-of_nil _ (ground (arith, h, not_yet)))
  ]

  found_ever : (n i : ℕ) → i < n → check env i name ≡ none → ever env n name ≡ true
  found_ever zero i below fine = absurd (omega (arith, below))
  found_ever (suc n) i below fine = elim (nat_eq.dec i n) [
    | yes e ↦ ground (arith, e, fine)
    | no other ↦ ground (arith, found_ever n i (omega (arith, below, other)) fine)
  ]

-- What has to answer nil for the checks to pass.
abbrev pub Answered : Libraries → Mongo → Discovery → Type 0
Answered w m d =
    SomeRound (λ i. check_mongo w i m ≡ none)
    × (d.enable ≡ "etcd" → SomeRound (λ i. check_etcd w i d.etcd ≡ none))

module _ (w : Libraries) (m : Mongo) (d : Discovery) where
  is_component :
      (x : String)
      → contains (components d.enable) x ≡ true
      → (x ≡ "Mongo") ⊎ ((x ≡ "Redis") ⊎ ((x ≡ "Etcd") × (d.enable ≡ "etcd")))
  is_component x h = elim (string_eq.dec x "Mongo") [
    | yes a ↦ inl a
    | no a ↦ elim (string_eq.dec x "Redis") [
      | yes b ↦ inr (inl b)
      | no b ↦ elim (string_eq.dec d.enable "etcd") [
        | yes c ↦ inr (inr (ground (arith, h, a, b, c), c))
        | no c ↦ absurd (ground (arith, h, a, b, c))
      ]
    ]
  ]

  mongo_component : contains (components d.enable) "Mongo" ≡ true
  mongo_component = ground arith

  etcd_component : d.enable ≡ "etcd" → contains (components d.enable) "Etcd" ≡ true
  etcd_component e = ground (arith, e)

  check-mongo : (i : ℕ) → check (checks w m d) i "Mongo" ≡ check_mongo w i m
  unfolding check checks string_eq
  check-mongo i = refl

  check-redis : (i : ℕ) → check (checks w m d) i "Redis" ≡ none
  unfolding check string_eq
  check-redis i = refl

  check-etcd : (i : ℕ) → check (checks w m d) i "Etcd" ≡ check_etcd w i d.etcd
  unfolding check checks string_eq
  check-etcd i = refl

  AllEver-Answered : AllEver (checks w m d) 180 (components d.enable) ↔ Answered w m d
  AllEver-Answered = (
    λ h.
        let (i, below, fine) = ever_found (checks w m d) "Mongo" 180 (h "Mongo" mongo_component) in
        (
          (i, below, sym (check-mongo i) ∙ fine),
          λ e.
              let (j, below', fine') =
                ever_found (checks w m d) "Etcd" 180 (h "Etcd" (etcd_component e)) in
              (j, below', sym (check-etcd j) ∙ fine'),
        ),
    λ ((i, below, fine), etcd) x has. elim (is_component x has) [
      | inl a ↦ rw a (found_ever (checks w m d) "Mongo" 180 i below (check-mongo i ∙ fine))
      | inr (inl b) ↦ rw b (found_ever (checks w m d) "Redis" 180 0 (omega arith) (check-redis 0))
      | inr (inr (c, e)) ↦
          let (j, below', fine') = etcd e in
          rw c (found_ever (checks w m d) "Etcd" 180 j below' (check-etcd j ∙ fine'))
    ],
  )

done-of_ending : (v : Verdict) → ending_of v ≡ done → v ≡ passed
done-of_ending passed h = refl
done-of_ending (gave_up n) h = absurd (ground arith)

module _ (w : Libraries) (order : Discovery → ℕ → List String)
    (same : (d : Discovery) (i : ℕ) (x : String)
      → contains (order d i) x ≡ contains (components d.enable) x)
    (P : Platform) (directory : String) where
  passes_iff :
      (m : Mongo) (d : Discovery)
      → ((perform_checks (checks w m d) (order d) 180).0 ≡ passed) ↔ Answered w m d
  passes_iff m d =
      let (to, from) = perform_checks-passed_iff (checks w m d) (order d) d.enable 180 (same d) in
      let (to', from') = AllEver-Answered w m d in (λ h. to' (to h), λ h. from (from' h))

  -- If each round visits the components, in any order, the component check program ends by
  -- itself exactly if both of its files can be loaded and, for what they configure, the check of
  -- MongoDB answers nil in some round below 180 and, where the discovery is etcd, the check of
  -- etcd does.
  pub main-done_iff : (main w order P directory ≡ done) ↔ (
      (m : Mongo) × (d : Discovery) × (load_file P P.mongo_viper directory mongodb_config_file_name
        ≡ ok m)
      × (load_file P P.discovery_viper directory discovery_config_filename ≡ ok d)
      × Answered w m d)
  unfolding main init_config
  main-done_iff = (
    λ h. elim (Res-cases (load_file P P.mongo_viper directory mongodb_config_file_name)) [
      | inl (m, e) ↦
          elim (Res-cases (load_file P P.discovery_viper directory discovery_config_filename)) [
            | inl (d, e') ↦ (m, d, e, e', (passes_iff m d).0 (done-of_ending _ (rw (e, e') at h)))
            | inr (inl (x, failed)) ↦ absurd (ground (arith, e, failed))
            | inr (inr panicked) ↦ absurd (ground (arith, e, panicked))
          ]
      | inr (inl (x, failed)) ↦ absurd (ground (arith, failed))
      | inr (inr panicked) ↦ absurd (ground (arith, panicked))
    ],
    λ (m, d, e, e', answered). rw (e, e', (passes_iff m d).1 answered) refl,
  )
