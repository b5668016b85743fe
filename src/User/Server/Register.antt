-- ===== src/User/Server/Register.antt =====
-- What `UserRegister` does on each of its branches.
use openim_project_template.Base.{
  ◌+◌, String, ◌≡◌, refl, ◌↔◌, Bool-cases, inl, inr, List, [], ◌∷◌, map, arith, none, some, Option,
  Res, ok, err, ◌⊎◌, Res-cases, string_eq, ◌++◌, ap,
}
use openim_project_template.Errors.{Error, coded, err_args}
use openim_project_template.Base.Text.{contains_char}
use openim_project_template.Tools
use openim_project_template.Tools.{DataUtil, has_repeat}
use openim_project_template.User.{UserInfo, to_model}
use openim_project_template.User.Storage.{Collection}
use openim_project_template.User.Server.{Server, user_register, check_ids}
use openim_project_template.User.Server.Valid.{
  IsRegistrable, info_ids, check_ids-ok, valid-of_check_ids,
}

-- What the insertion of a request's users answers, and the collection after it.
abbrev pub inserted : (C : Collection) → List UserInfo → Server C → Option Error × C.State
inserted C us s = C.insert_many (map to_model us) s.db

module _ (C : Collection) (D : DataUtil) (L : Tools.IsLawful D) where
  -- An acceptable request reaches the insertion, and its outcome decides.
  pub user_register_reaches :
      (us : List UserInfo) (s : Server C)
      → IsRegistrable us
      → user_register C D us s ≡ elim (inserted C us s).0 [
        | none ↦ (ok tt, record { db = (inserted C us s).1; registered = s.registered + 1 })
        | some e ↦ (err e, record s { db = (inserted C us s).1 })
      ]
  unfolding user_register
  user_register_reaches [] s v = absurd (v.some_user refl)
  user_register_reaches (u ∷ us) s v =
      let (r, done) = check_ids-ok (u ∷ us) [] v.valid in
      ground (arith, done, L.duplicate_any_lem UserInfo (u ∷ us) (λ e. e.user_id))

  -- The handler answers without an error only for an acceptable request.
  IsRegistrable-of_ok :
      (us : List UserInfo) (s : Server C) → (user_register C D us s).0 ≡ ok tt → IsRegistrable us
  unfolding user_register
  IsRegistrable-of_ok [] s h = absurd (ground arith)
  IsRegistrable-of_ok (u ∷ us) s h =
      let dup = L.duplicate_any_lem UserInfo (u ∷ us) (λ e. e.user_id) in
      elim (Res-cases (check_ids (u ∷ us) [])) [
        | inl (r, done) ↦ record {
          some_user = λ e. cc;
          distinct = ground (arith, dup);
          valid = valid-of_check_ids (u ∷ us) [] r done;
        }
        | inr (inl (e, failed)) ↦ absurd (ground (arith, failed, dup))
        | inr (inr panicked) ↦ absurd (ground (arith, panicked, dup))
      ]

  -- With DuplicateAny as documented, UserRegister answers without an error exactly when the
  -- request has users, their ids are distinct, non-empty and free of colons, and the insertion
  -- into the database gives no error.
  pub user_register-ok_iff :
      (us : List UserInfo) (s : Server C)
      → ((user_register C D us s).0 ≡ ok tt) ↔ (IsRegistrable us × ((inserted C us s).0 ≡ none))
  user_register-ok_iff us s = (
    λ h. let v = IsRegistrable-of_ok us s h in (v, ground (arith, user_register_reaches us s v)),
    λ (v, done). rw (user_register_reaches us s v, done),
  )

  check_ids_fault :
      (us : List UserInfo) (acc : List String)
      → ((r : List String) × (check_ids us acc ≡ ok r))
        ⊎ ((m : String) × (check_ids us acc ≡ err (coded err_args m)))
  unfolding check_ids
  check_ids_fault [] acc = inl (acc, refl)
  check_ids_fault (u ∷ us) acc = elim (string_eq.dec u.user_id "") [
    | yes e ↦ inr ("userID is empty", ground arith)
    | no n ↦ elim (Bool-cases (contains_char b':' u.user_id)) [
      | inl e ↦ inr ("userID contains ':' is invalid userID", ground arith)
      | inr e ↦ elim (check_ids_fault us (acc ++ u.user_id ∷ [])) [
        | inl (r, done) ↦ inl (r, ground (arith, done))
        | inr (m, failed) ↦ inr (m, ground (arith, failed))
      ]
    ]
  ]

  pub IsRegistrable-or_refused :
      (us : List UserInfo) (s : Server C)
      → IsRegistrable us
        ⊎ ((¬ IsRegistrable us)
            × (m : String) × (user_register C D us s ≡ (err (coded err_args m), s)))
  unfolding user_register
  IsRegistrable-or_refused [] s = inr (λ v. v.some_user refl, "users is empty", ground arith)
  IsRegistrable-or_refused (u ∷ us) s =
      let dup = L.duplicate_any_lem UserInfo (u ∷ us) (λ e. e.user_id) in
      elim (Bool-cases (has_repeat (info_ids (u ∷ us)))) [
        | inl again ↦ inr (
          λ v. absurd (ground (arith, again, v.distinct)),
          "userID repeated",
          ground (arith, dup, again),
        )
        | inr fresh ↦ elim (check_ids_fault (u ∷ us) []) [
          | inl (r, done) ↦ inl (record {
            some_user = λ e. cc;
            distinct = fresh;
            valid = valid-of_check_ids (u ∷ us) [] r done;
          })
          | inr (m, failed) ↦ inr (
            λ v.
                let (r, done) = check_ids-ok (u ∷ us) [] v.valid in
                absurd (ground (arith, done, failed)),
            m,
            ground (arith, dup, fresh, failed),
          )
        ]
      ]

  -- With DuplicateAny as documented, a registration request that is not acceptable is answered
  -- by an argument error, and neither the database nor the counter changes.
  pub user_register_refuses :
      (us : List UserInfo) (s : Server C)
      → ¬ IsRegistrable us
      → (m : String) × (user_register C D us s ≡ (err (coded err_args m), s))
  user_register_refuses us s h = elim (IsRegistrable-or_refused us s) [
    | inl v ↦ absurd (h v)
    | inr (_, m, refused) ↦ (m, refused)
  ]

  -- Whatever the request and the database, the handler does not panic: either it answers without
  -- an error and the counter goes up by one, or it answers an error and the counter stays.
  pub registered-user_register :
      (us : List UserInfo) (s : Server C)
      → (((user_register C D us s).0 ≡ ok tt)
          × ((user_register C D us s).1.registered ≡ s.registered + 1))
        ⊎ ((e : Error) × ((user_register C D us s).0 ≡ err e)
            × ((user_register C D us s).1.registered ≡ s.registered))
  registered-user_register us s = elim (IsRegistrable-or_refused us s) [
    | inl v ↦ rw (user_register_reaches us s v) (outcome (inserted C us s).0)
    | inr (_, m, refused) ↦
        inr (coded err_args m, ap (λ r. r.0) refused, ap (λ r. r.1.registered) refused)
  ]
    where
      outcome :
          (o : Option Error)
          → let r : Res (Unit {0}) × Server C = elim o [
            | none ↦ (ok tt, record { db = (inserted C us s).1; registered = s.registered + 1 })
            | some e ↦ (err e, record s { db = (inserted C us s).1 })
          ] in
            ((r.0 ≡ ok tt) × (r.1.registered ≡ s.registered + 1))
            ⊎ ((e : Error) × (r.0 ≡ err e) × (r.1.registered ≡ s.registered))
      outcome none = inl (refl, refl)
      outcome (some e) = inr (e, refl, refl)

  -- The database afterwards: as before, or as the insertion left it.
  pub db-user_register :
      (us : List UserInfo) (s : Server C)
      → ((user_register C D us s).1.db ≡ s.db)
        ⊎ (IsRegistrable us × ((user_register C D us s).1.db ≡ (inserted C us s).1))
  db-user_register us s = elim (IsRegistrable-or_refused us s) [
    | inl v ↦ inr (v, ground (arith, user_register_reaches us s v))
    | inr (_, m, refused) ↦ inl (ap (λ r. r.1.db) refused)
  ]
