-- ===== src/User/Client/Answers.antt =====
-- What the client's calls answer, for any answer of the service.
use openim_project_template.Base.{
  String, ◌≡◌, ◌≢◌, refl, inl, inr, false, true, List, [], ◌∷◌, arith, none, some, ◌↔◌, ok, err,
  panics, contains, string_eq, nat_eq, Bool-cases, Res-cases, Act, ◌⊎◌,
}
use openim_project_template.Base.Dict.{Dict, lookup}
use openim_project_template.Base.Text.{join}
use openim_project_template.Errors.{Error, coded, err_user_id_not_found}
use openim_project_template.Tools
use openim_project_template.Tools.{DataUtil, last_with}
use openim_project_template.User.{UserInfo}
use openim_project_template.User.Server.Valid.{info_ids}
use openim_project_template.User.Client.{first, get_users_info, get_user_info, get_users_info_map}

nil_of_contains : (xs : List String) → ((x : String) → contains xs x ≡ false) → xs ≡ []
nil_of_contains [] h = refl
nil_of_contains (x ∷ xs) h = absurd (ground (arith, h x))

List-cases : {A : Type 0} (xs : List A) → (xs ≡ []) ⊎ (xs ≢ [])
List-cases [] = inl refl
List-cases (x ∷ xs) = inr (λ e. cc)

last_with-none :
    (infos : List UserInfo) (x : String)
    → contains (info_ids infos) x ≡ false
    → last_with (λ e. e.user_id) x infos ≡ none
last_with-none [] x h = refl
last_with-none (u ∷ infos) x h = ground (arith, last_with-none infos x)

last_with_found :
    (infos : List UserInfo) (x : String)
    → contains (info_ids infos) x ≡ true
    → (u : UserInfo) × (last_with (λ e. e.user_id) x infos ≡ some u) × (u.user_id ≡ x)
last_with_found [] x h = absurd (ground arith)
last_with_found (u ∷ infos) x h = elim (Bool-cases (contains (info_ids infos) x)) [
  | inl later ↦
      let (v, found, same) = last_with_found infos x later in (v, ground (arith, found), same)
  | inr here ↦ (u, ground (arith, last_with-none infos x here), ground arith)
]

module _ {S : Type 0} (D : DataUtil) (T : Tools.IsLawful D)
    (call : List String → Act S (List UserInfo)) where
  missing : List String → List UserInfo → List String
  missing ks infos = D.single ks (D.slice UserInfo String infos (λ e. e.user_id))

  missing-eq-nil_iff :
      (ks : List String) (infos : List UserInfo)
      → (missing ks infos ≡ []) ↔ ((x : String) → contains ks x ≡ contains (info_ids infos) x)
  unfolding missing
  missing-eq-nil_iff ks infos = (
    λ e x. ground (
      arith,
      T.contains-single ks (info_ids infos) x,
      T.slice_lem UserInfo String infos (λ e. e.user_id),
    ),
    λ h. nil_of_contains _ λ x. ground (
      arith,
      T.contains-single ks (info_ids infos) x,
      T.slice_lem UserInfo String infos (λ e. e.user_id),
      h x,
    ),
  )

  module _ (k : String) (ks : List String) (s : S) where
    answer_complete :
        (infos : List UserInfo)
        → (call (k ∷ ks) s).0 ≡ ok infos
        → missing (k ∷ ks) infos ≡ []
        → (get_users_info D call (k ∷ ks) s).0 ≡ ok infos
    unfolding get_users_info missing nat_eq
    answer_complete infos h m = ground arith

    answer_incomplete :
        (infos : List UserInfo)
        → (call (k ∷ ks) s).0 ≡ ok infos
        → missing (k ∷ ks) infos ≢ []
        → (get_users_info D call (k ∷ ks) s).0
          ≡ err (coded err_user_id_not_found (join (missing (k ∷ ks) infos) ","))
    unfolding get_users_info missing nat_eq
    answer_incomplete infos h m = ground arith

    answer_error :
        (e : Error) → (call (k ∷ ks) s).0 ≡ err e → (get_users_info D call (k ∷ ks) s).0 ≡ err e
    unfolding get_users_info nat_eq
    answer_error e h = ground arith

    answer_panic : (call (k ∷ ks) s).0 ≡ panics → (get_users_info D call (k ∷ ks) s).0 ≡ panics
    unfolding get_users_info nat_eq
    answer_panic h = ground arith

    called-of_answer :
        (infos : List UserInfo)
        → (get_users_info D call (k ∷ ks) s).0 ≡ ok infos
        → ((call (k ∷ ks) s).0 ≡ ok infos) × (missing (k ∷ ks) infos ≡ [])
    called-of_answer infos h = elim (Res-cases (call (k ∷ ks) s).0) [
      | inl (r, called) ↦ elim (List-cases (missing (k ∷ ks) r)) [
        | inl none_missing ↦
            let same = answer_complete r called none_missing in (ground arith, ground arith)
        | inr some_missing ↦ absurd (ground (arith, answer_incomplete r called some_missing))
      ]
      | inr (inl (e, failed)) ↦ absurd (ground (arith, answer_error e failed))
      | inr (inr panicked) ↦ absurd (ground (arith, answer_panic panicked))
    ]

    panic-of_answer : (get_users_info D call (k ∷ ks) s).0 ≡ panics → (call (k ∷ ks) s).0 ≡ panics
    panic-of_answer h = elim (Res-cases (call (k ∷ ks) s).0) [
      | inl (r, called) ↦ elim (List-cases (missing (k ∷ ks) r)) [
        | inl none_missing ↦ absurd (ground (arith, answer_complete r called none_missing))
        | inr some_missing ↦ absurd (ground (arith, answer_incomplete r called some_missing))
      ]
      | inr (inl (e, failed)) ↦ absurd (ground (arith, answer_error e failed))
      | inr (inr panicked) ↦ panicked
    ]

  -- With the library functions as documented, GetUsersInfo of the client, for a list of ids that
  -- is not empty, answers users exactly when the service answers the same users and their ids
  -- are, as a set, those that were asked for.
  pub get_users_info-ok_iff :
      (k : String) (ks : List String) (infos : List UserInfo) (s : S)
      → ((get_users_info D call (k ∷ ks) s).0 ≡ ok infos) ↔ (
          ((call (k ∷ ks) s).0 ≡ ok infos)
          × ((x : String) → contains (k ∷ ks) x ≡ contains (info_ids infos) x))
  get_users_info-ok_iff k ks infos s = (
    λ h.
        let (called, m) = called-of_answer k ks s infos h in
        (called, (missing-eq-nil_iff (k ∷ ks) infos).0 m),
    λ (called, same).
        answer_complete k ks s infos called ((missing-eq-nil_iff (k ∷ ks) infos).1 same),
  )

  -- If the service answers without an error but lacks an id, or adds one, `GetUsersInfo` answers
  -- the error UserIDNotFound.
  get_users_info_incomplete :
      (k : String) (ks : List String) (infos : List UserInfo) (s : S) (x : String)
      → (call (k ∷ ks) s).0 ≡ ok infos
      → contains (k ∷ ks) x ≢ contains (info_ids infos) x
      → (m : String) × ((get_users_info D call (k ∷ ks) s).0 ≡ err (coded err_user_id_not_found m))
  get_users_info_incomplete k ks infos s x called differ = (
    join (missing (k ∷ ks) infos) ",",
    answer_incomplete k ks s infos called λ m. differ ((missing-eq-nil_iff (k ∷ ks) infos).0 m x),
  )

  -- An empty list is answered with no call.
  get_users_info_empty : (s : S) → get_users_info D call [] s ≡ (ok [], s)
  unfolding get_users_info nat_eq
  get_users_info_empty s = refl

  head_of_one :
      (k : String) (infos : List UserInfo)
      → ((x : String) → contains (k ∷ []) x ≡ contains (info_ids infos) x)
      → (u : UserInfo) × (first infos ≡ ok u) × (u.user_id ≡ k)
  head_of_one k [] h = absurd (ground (arith, h k))
  head_of_one k (u ∷ infos) h = (u, refl, ground (arith, h u.user_id))

  -- With the library functions as documented, if the call of the service does not panic,
  -- GetUserInfo does not: it answers a user of the id that was asked for, or an error.
  pub get_user_info_safe :
      (k : String) (s : S)
      → (call (k ∷ []) s).0 ≢ panics
      → ((u : UserInfo) × ((get_user_info D call k s).0 ≡ ok u) × (u.user_id ≡ k))
        ⊎ ((e : Error) × ((get_user_info D call k s).0 ≡ err e))
  unfolding get_user_info
  get_user_info_safe k s calm = elim (Res-cases (get_users_info D call (k ∷ []) s).0) [
    | inl (infos, fine) ↦
        let (u, one, same) = head_of_one k infos ((get_users_info-ok_iff k [] infos s).0 fine).1 in
        inl (u, ground (arith, one), same)
    | inr (inl (e, failed)) ↦ inr (e, ground (arith, failed))
    | inr (inr panicked) ↦ absurd (calm (panic-of_answer k [] s panicked))
  ]

  -- With the library functions as documented, a map that GetUsersInfoMap answers has a user of
  -- its id for each id that was asked for, and no other key.
  pub get_users_info_map_keys :
      (k : String) (ks : List String) (m : Dict String UserInfo) (s : S)
      → (get_users_info_map D call (k ∷ ks) s).0 ≡ ok m
      → (x : String)
      → ((contains (k ∷ ks) x ≡ true) × (u : UserInfo) × (lookup x m ≡ some u) × (u.user_id ≡ x))
        ⊎ ((contains (k ∷ ks) x ≡ false) × (lookup x m ≡ none))
  unfolding get_users_info_map
  get_users_info_map_keys k ks m s h x = elim (Res-cases (get_users_info D call (k ∷ ks) s).0) [
    | inl (infos, fine) ↦
        let same = ((get_users_info-ok_iff k ks infos s).0 fine).1 x in
        let built : D.slice_to_map UserInfo infos (λ e. e.user_id) ≡ m = ground arith in
        rw (same, ← built, T.lookup-slice_to_map UserInfo infos (λ e. e.user_id) x)
          (elim (Bool-cases (contains (info_ids infos) x)) [
            | inl asked ↦
                let (u, found, same_id) = last_with_found infos x asked in
                inl (asked, u, found, same_id)
            | inr other ↦ inr (other, last_with-none infos x other)
          ])
    | inr (inl (e, failed)) ↦ absurd (ground (arith, failed))
    | inr (inr panicked) ↦ absurd (ground (arith, panicked))
  ]
