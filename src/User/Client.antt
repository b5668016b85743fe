-- ===== src/User/Client.antt =====
-- The client of the user service, pkg/rpcclient/user.go. The stub that the protocol compiler
-- generates is the parameter `call`: what a remote `GetDesignateUsers` answers, over any state.
pub mod Answers
pub mod Public
pub mod EndToEnd
use openim_project_template.Base.{
  String, ltb, ◌==◌, nat_eq, if◌then◌else◌, List, [], ◌∷◌, length, Res, ok, panics, Act, lift, pure,
  fail, ◌>>=◌,
}
use openim_project_template.Base.Dict.{Dict}
use openim_project_template.Base.Text.{join}
use openim_project_template.Errors.{coded, err_user_id_not_found}
use openim_project_template.Tools.{DataUtil}
use openim_project_template.User.{UserInfo}

-- `sdkws.PublicUserInfo`, with the two fields that the code sets.
pub record PublicUserInfo : Type 0 where
  pub user_id : String
  pub nickname : String

abbrev pub public : UserInfo → PublicUserInfo
public e = record { user_id = e.user_id; nickname = e.nickname }

-- `users[0]`
abbrev pub first : {A : Type 0} → List A → Res A
first [] = panics
first (a ∷ as_) = ok a

module _ {S : Type 0} (D : DataUtil) (call : List String → Act S (List UserInfo)) where
  -- The test of `GetUsersInfo` on the response.
  abbrev check_complete : List String → List UserInfo → Act S (List UserInfo)
  check_complete user_ids infos =
      let missing = D.single user_ids (D.slice UserInfo String infos (λ e. e.user_id)) in
      if ltb 0 (length missing)
      then fail (coded err_user_id_not_found (join missing ","))
      else pure infos

  -- `GetUsersInfo`
  unfoldable pub get_users_info : List String → Act S (List UserInfo)
  get_users_info user_ids =
      if length user_ids == 0
      then pure []
      else do infos ← call user_ids; check_complete user_ids infos

  -- `GetUserInfo`
  unfoldable pub get_user_info : String → Act S UserInfo
  get_user_info user_id = do users ← get_users_info (user_id ∷ []); lift (first users)

  -- `GetUsersInfoMap`
  unfoldable pub get_users_info_map : List String → Act S (Dict String UserInfo)
  get_users_info_map user_ids = do
    users ← get_users_info user_ids
    pure (D.slice_to_map UserInfo users (λ e. e.user_id))

  -- `GetPublicUserInfos`; its flag `complete` is not read.
  unfoldable pub get_public_user_infos : List String → Act S (List PublicUserInfo)
  get_public_user_infos user_ids = do
    users ← get_users_info user_ids
    pure (D.slice UserInfo PublicUserInfo users public)

  -- `GetPublicUserInfo`
  unfoldable pub get_public_user_info : String → Act S PublicUserInfo
  get_public_user_info user_id = do users ← get_public_user_infos (user_id ∷ []); lift (first users)

  -- `GetPublicUserInfoMap`
  unfoldable pub get_public_user_info_map : List String → Act S (Dict String PublicUserInfo)
  get_public_user_info_map user_ids = do
    users ← get_public_user_infos user_ids
    pure (D.slice_to_map PublicUserInfo users (λ e. e.user_id))
