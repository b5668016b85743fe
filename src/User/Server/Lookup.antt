-- ===== src/User/Server/Lookup.antt =====
-- What `GetDesignateUsers` answers, and what it answers after `UserRegister`.
use openim_project_template.Base.{
  String, ◌≡◌, refl, ◌↔◌, inl, inr, false, List, [], ◌∷◌, map, arith, none, some, ok, err, panics,
  contains, string_eq, All, nat_eq, Option-cases, ap, ◌∙◌,
}
use openim_project_template.Errors.{Error, coded, err_record_not_found}
use openim_project_template.Tools
use openim_project_template.Tools.{DataUtil}
use openim_project_template.User.{User, UserInfo, to_model}
use openim_project_template.User.Storage
use openim_project_template.User.Storage.{Collection}
use openim_project_template.User.Server.{Server, user_register, get_designate_users}
use openim_project_template.User.Server.Valid.{info_ids, ids-map-to_model}
use openim_project_template.User.Server.Register.{
  db-user_register, user_register_reaches, user_register-ok_iff,
}

abbrev pub to_info : User → UserInfo
to_info u = record { user_id = u.user_id; nickname = u.nickname }

-- No list of two or more ids is ever answered, also if all of them are registered: the cache
-- looks up the first id alone, and the controller compares the counts. The error is that of the
-- lookup, or "userID not found".
get_designate_users_many :
    (C : Collection) (k j : String) (ks : List String) (s : Server C)
    → (get_designate_users C (k ∷ j ∷ ks) s ≡ elim (C.find_one k s.db).1 [
      | some e ↦ (err e, s)
      | none ↦ (err (coded err_record_not_found "userID not found"), s)
    ])
unfolding get_designate_users nat_eq
get_designate_users_many C k j ks s = ground arith

-- An empty list of ids panics: the cache takes the first element of it.
pub get_designate_users_empty :
    (C : Collection) (s : Server C) → get_designate_users C [] s ≡ (panics, s)
unfolding get_designate_users
get_designate_users_empty C s = refl

module _ (C : Collection) (s : Server C) (k : String) where
  pub get_found :
      (u : User)
      → C.find_one k s.db ≡ (some u, none)
      → get_designate_users C (k ∷ []) s ≡ (ok (to_info u ∷ []), s)
  unfolding get_designate_users nat_eq
  get_found u h = ground arith

  pub get_failed :
      (e : Error) → (C.find_one k s.db).1 ≡ some e → get_designate_users C (k ∷ []) s ≡ (err e, s)
  unfolding get_designate_users nat_eq
  get_failed e h = ground arith

  pub many_fails :
      (j : String) (ks : List String)
      → (e : Error) × (get_designate_users C (k ∷ j ∷ ks) s ≡ (err e, s))
  many_fails j ks = elim (Option-cases (C.find_one k s.db).1) [
    | inl e ↦ (
      coded err_record_not_found "userID not found",
      ground (arith, get_designate_users_many C k j ks s),
    )
    | inr (x, e) ↦ (x, ground (arith, get_designate_users_many C k j ks s))
  ]

module _ (C : Collection) (L : Storage.IsLawful C) where
  answered_one :
      (k : String) (infos : List UserInfo) (s : Server C)
      → (get_designate_users C (k ∷ []) s).0 ≡ ok infos
      → (u : User) × (k ∷ [] ≡ u.user_id ∷ [])
        × (C.find_one u.user_id s.db ≡ (some u, none))
        × (infos ≡ to_info u ∷ [])
  answered_one k infos s h = elim (Option-cases (C.find_one k s.db).1) [
    | inl fine ↦
        let (u, there, same) = L.found k s.db fine in
        (u, cc, ground (arith, there), ground (arith, get_found C s k u there))
    | inr (e, failed) ↦ absurd (ground (arith, get_failed C s k e failed))
  ]

  -- Over a collection that keeps its laws, GetDesignateUsers answers users exactly when it is
  -- asked for one id and the collection has a document with that id, which is then what it
  -- answers.
  pub get_designate_users-ok_iff :
      (ks : List String) (infos : List UserInfo) (s : Server C)
      → ((get_designate_users C ks s).0 ≡ ok infos) ↔ (
          (u : User) × (ks ≡ u.user_id ∷ [])
          × (C.find_one u.user_id s.db ≡ (some u, none))
          × (infos ≡ to_info u ∷ []))
  get_designate_users-ok_iff [] infos s =
      (λ h. absurd (ground (arith, get_designate_users_empty C s)), λ (u, one, _, _). absurd (cc))
  get_designate_users-ok_iff (k ∷ []) infos s = (
    answered_one k infos s,
    λ (u, one, there, same). ground (arith, get_found C s u.user_id u there),
  )
  get_designate_users-ok_iff (k ∷ j ∷ ks) infos s = (
    λ h. let (e, failed) = many_fails C s k j ks in absurd (ground (arith, failed)),
    λ (u, one, _, _). absurd (cc),
  )

module _ (C : Collection) (L : Storage.IsLawful C) (D : DataUtil) (T : Tools.IsLawful D) where
  All-answered :
      (us : List UserInfo) (s : Server C)
      → All (λ u. C.find_one u.user_id s.db ≡ (some u, none)) (map to_model us)
      → All (λ u. get_designate_users C (u.user_id ∷ []) s ≡ (ok (u ∷ []), s)) us
  All-answered [] s h = tt
  All-answered (u ∷ us) s (there, h) =
      (get_found C s u.user_id (to_model u) there, All-answered us s h)

  -- Over a collection and library functions that keep their laws, after a registration that
  -- succeeds, a lookup of the id of each of its users answers that user.
  pub get-user_register :
      (us : List UserInfo) (s : Server C)
      → (user_register C D us s).0 ≡ ok tt
      → All
          (λ u.
            get_designate_users C (u.user_id ∷ []) (user_register C D us s).1
            ≡ (ok (u ∷ []), (user_register C D us s).1))
          us
  get-user_register us s h =
      let (v, done) = (user_register-ok_iff C D T us s).0 h in
      rw (user_register_reaches C D T us s v, done)
        (All-answered us _ (L.found_after_insert (map to_model us) s.db done))

  pub find-user_register :
      (us : List UserInfo) (s : Server C) (k : String)
      → contains (info_ids us) k ≡ false
      → C.find_one k (user_register C D us s).1.db ≡ C.find_one k s.db
  find-user_register us s k h = elim (db-user_register C D T us s) [
    | inl same ↦ ap (C.find_one k) same
    | inr (_, new) ↦
        ap (C.find_one k) new
        ∙ Storage.find_other C L (map to_model us) s.db k (rw ids-map-to_model h)
  ]
