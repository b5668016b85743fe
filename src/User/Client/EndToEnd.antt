-- ===== src/User/Client/EndToEnd.antt =====
-- The client over the service itself: `call` is the handler `GetDesignateUsers`, with a transport
-- that loses nothing.
use openim_project_template.Base.{
  String, ◌≡◌, ◌≢◌, refl, List, [], ◌∷◌, arith, All, ok, string_eq, ap,
}
use openim_project_template.Tools
use openim_project_template.Tools.{DataUtil}
use openim_project_template.User.{UserInfo}
use openim_project_template.User.Storage
use openim_project_template.User.Storage.{Collection}
use openim_project_template.User.Server.{Server, user_register, get_designate_users}
use openim_project_template.User.Server.Lookup.{get-user_register, get_designate_users-ok_iff}
use openim_project_template.User.Client.{get_users_info, get_user_info}
use openim_project_template.User.Client.Answers.{get_users_info-ok_iff}

module _ (C : Collection) (L : Storage.IsLawful C) (D : DataUtil) (T : Tools.IsLawful D) where
  info_of_call :
      (u : UserInfo) (s : Server C)
      → get_designate_users C (u.user_id ∷ []) s ≡ (ok (u ∷ []), s)
      → (get_user_info D (get_designate_users C) u.user_id s).0 ≡ ok u
  unfolding get_user_info
  info_of_call u s h =
      let got =
        (get_users_info-ok_iff D T (get_designate_users C) u.user_id [] (u ∷ []) s).1
          (ap (λ r. r.0) h, λ x. refl) in
      ground (arith, got)

  infos_of_calls :
      (us : List UserInfo) (s : Server C)
      → All (λ u. get_designate_users C (u.user_id ∷ []) s ≡ (ok (u ∷ []), s)) us
      → All (λ u. (get_user_info D (get_designate_users C) u.user_id s).0 ≡ ok u) us
  infos_of_calls [] s h = tt
  infos_of_calls (u ∷ us) s (here, h) = (info_of_call u s here, infos_of_calls us s h)

  -- Over a collection and library functions that keep their laws, after a registration that
  -- succeeds, GetUserInfo of the client, over the service, answers each of its users.
  pub get_user_info-user_register :
      (us : List UserInfo) (s : Server C)
      → (user_register C D us s).0 ≡ ok tt
      → All
          (λ u.
            (get_user_info D (get_designate_users C) u.user_id (user_register C D us s).1).0 ≡ ok u)
          us
  get_user_info-user_register us s h = infos_of_calls us _ (get-user_register C L D T us s h)

  -- Over a collection and library functions that keep their laws, GetUsersInfo of the client,
  -- over the service, answers no list of two or more ids, whatever is registered.
  pub get_users_info_many :
      (k j : String) (ks : List String) (infos : List UserInfo) (s : Server C)
      → (get_users_info D (get_designate_users C) (k ∷ j ∷ ks) s).0 ≢ ok infos
  get_users_info_many k j ks infos s h =
      let called = ((get_users_info-ok_iff D T (get_designate_users C) k (j ∷ ks) infos s).0 h).0 in
      let (u, one, _, _) = (get_designate_users-ok_iff C L _ infos s).0 called in absurd (cc)
